-- ===== src/Kernel/Config/Leak.antt =====
-- The configurations that the RCU module allocates and frees, from load to unload.
use cppcourse.Base.{ℕ, ◌+◌, ◌≡◌, refl, ◌∙◌, arith, List, [], ◌∷◌, none, some}
use cppcourse.Base.{Bool, true, false, leb, ◌==◌, ◌||◌, if◌then◌else◌}
use cppcourse.Base.Text.{c_str}
use cppcourse.Kernel.Api.{Kernel, Errno}
use cppcourse.Kernel.Device.{Call, loaded, failed}
use cppcourse.Kernel.Config.{
  CfgState, unloaded, boot, cfg_read, cfg_write, cfg_init, cfg_exit, parse_cfg,
}

-- A call on the device file.
pub data Request : Type 0 where
  write read : Call → Request

unfoldable pub serve : Kernel → List Request → CfgState → CfgState
serve k [] s = s
serve k (write c ∷ requests) s = serve k requests (cfg_write k c s).0
serve k (read c ∷ requests) s = serve k requests (cfg_read k c s).0

-- Whether a write is a configuration that the device accepts.
unfoldable pub updates : Kernel → Call → Bool
updates k c =
    if c.count == 0 || leb 80 c.count then false else elim (k.copy_from_user c.ubuf c.count) [
      | none ↦ false
      | some bytes ↦ elim (parse_cfg k (k.strim (c_str bytes)).left) [
        | none ↦ false
        | some neu ↦ c.memory
      ]
    ]

unfoldable pub update_count : Kernel → List Request → ℕ
update_count k [] = 0
update_count k (write c ∷ requests) = (if updates k c then 1 else 0) + update_count k requests
update_count k (read c ∷ requests) = update_count k requests

module _ (k : Kernel) where
  cfg_write-leak :
      (c : Call) (s : CfgState)
      → (cfg_write k c s).0 ≡ record s { live = s.live + (if updates k c then 1 else 0) }
  unfolding cfg_write updates
  cfg_write-leak c s = ground arith

  cfg_read-same : (c : Call) (s : CfgState) → (cfg_read k c s).0 ≡ s
  unfolding cfg_read
  cfg_read-same c s = refl

  serve_lem :
      (requests : List Request) (s : CfgState)
      → serve k requests s ≡ record s { live = s.live + update_count k requests }
  unfolding serve update_count
  serve_lem [] s = ground arith
  serve_lem (write c ∷ requests) s = rw (cfg_write-leak c s) (
      serve_lem requests (record s { live = s.live + (if updates k c then 1 else 0) })
      ∙ ground arith)
  serve_lem (read c ∷ requests) s = rw (cfg_read-same c s) (serve_lem requests s)

  -- A load that fails leaves no configuration allocated if `kmalloc` failed, and one, which the
  -- global pointer names, if the registration was refused: nothing frees it.
  pub cfg_init-leak :
      (memory : Bool) (w w' : k.World) (e : Errno) (s : CfgState)
      → cfg_init k memory w unloaded ≡ (failed e w', s)
      → s ≡ (if memory then record { current_cfg = some boot; live = 1 } else unloaded)
  unfolding cfg_init
  cfg_init-leak true w w' e s h = cc
  cfg_init-leak false w w' e s h = cc

  -- After a successful load of the RCU module, whatever reads and writes come, the current configuration is the one
  -- from the load, and unloading leaves one configuration allocated for each accepted write.
  pub serve-leaks_cfgs :
      (memory : Bool) (w w' : k.World) (s : CfgState) (requests : List Request)
      → cfg_init k memory w unloaded ≡ (loaded w', s)
      → ((serve k requests s).current_cfg ≡ some boot)
        × ((cfg_exit k w' (serve k requests s)).1
            ≡ record { current_cfg = none; live = update_count k requests })
  unfolding cfg_init cfg_exit
  serve-leaks_cfgs true w w' s requests h =
      let loaded_with : s ≡ record { current_cfg = some boot; live = 1 } = cc in
      let same = serve_lem requests (record { current_cfg = some boot; live = 1 }) in
      rw (loaded_with, same) (refl, ground arith)
  serve-leaks_cfgs false w w' s requests h = cc
