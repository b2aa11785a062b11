-- ===== src/Kernel/Platform.antt =====
-- The platform drivers of content/exercises/el2: 01-dts-parse and 02-platform-driver, each in its
-- starter.c. Their bodies are not solved yet; a return value of 0 is `Ret.count 0`.
use Prim.Native.String.{String}
use cppcourse.Base.{ℕ, List, [], ◌∷◌}
use cppcourse.Kernel.Api.{Kernel, Ret, platform_driver}
use cppcourse.Kernel.Device.{Loaded, register_init}

unfoldable pub dtparse_probe : Ret
dtparse_probe = Ret.count 0

unfoldable pub dtparse_remove : Ret
dtparse_remove = Ret.count 0

-- `module_platform_driver(dtparse_driver)`
unfoldable pub dtparse_init : (k : Kernel) → k.World → Loaded k.World
dtparse_init k w = register_init k (platform_driver "dt-parse") w

unfoldable pub dtparse_exit : (k : Kernel) → k.World → k.World
dtparse_exit k w = k.unregister (platform_driver "dt-parse") w

-- `struct mytimer_priv` without the mapped base address.
pub record TimerPriv : Type 0 where
  pub irq : ℕ
  pub period_ms : ℕ
  pub counter : ℕ

pub data IrqReturn : Type 0 where
  irq_handled : IrqReturn

unfoldable pub mytimer_irq : ℕ → TimerPriv → TimerPriv × IrqReturn
mytimer_irq irq s = (s, irq_handled)

unfoldable pub mytimer_probe : Ret
mytimer_probe = Ret.count 0

unfoldable pub mytimer_remove : Ret
mytimer_remove = Ret.count 0

-- `module_platform_driver(mytimer_driver)`
unfoldable pub mytimer_init : (k : Kernel) → k.World → Loaded k.World
mytimer_init k w = register_init k (platform_driver "course-timer") w

unfoldable pub mytimer_exit : (k : Kernel) → k.World → k.World
mytimer_exit k w = k.unregister (platform_driver "course-timer") w

-- The `compatible` strings by which the devices are found.
abbrev pub dtparse_of_match : List String
dtparse_of_match = "course,dt-parse" ∷ []

abbrev pub mytimer_of_match : List String
mytimer_of_match = "course,platform-timer" ∷ []
