-- ===== src/Kernel/Stages.antt =====
-- Loads by the order of their registrations: none, one, or two with the first undone.
use cppcourse.Base.{◌≡◌, refl, ◌⊎◌, inl, inr}
use cppcourse.Kernel.Api.{
  Kernel, IsKernel, Errno, Resource, kobject, sysfs_file, Registered, registered, refused,
}
use cppcourse.Kernel.Device.{Loaded, loaded, failed, Undone}
use cppcourse.Kernel.PseudoFs.{sysfs_init, sysfs_exit}

-- The shape of a load with one registration, the error passed on through `e₁`.
abbrev one_stage : (k : Kernel) → (Errno → Errno) → Resource → k.World → Loaded k.World
one_stage k e₁ r w = elim (k.register r w) [
  | registered w' ↦ loaded w'
  | refused e ↦ failed (e₁ e) w
]

-- The shape of a load with two, the first undone when the second is refused.
abbrev pub two_stages :
    (k : Kernel)
    → (Errno → Errno)
    → (Errno → Errno)
    → Resource
    → Resource
    → k.World
    → Loaded k.World
two_stages k e₁ e₂ r₁ r₂ w = elim (k.register r₁ w) [
  | refused e ↦ failed (e₁ e) w
  | registered w1 ↦ elim (k.register r₂ w1) [
    | refused e ↦ failed (e₂ e) (k.unregister r₁ w1)
    | registered w2 ↦ loaded w2
  ]
]

Registered-cases :
    {W : Type 0} (r : Registered W)
    → ((e : Errno) × (r ≡ refused e)) ⊎ ((w : W) × (r ≡ registered w))
Registered-cases (registered w) = inr (w, refl)
Registered-cases (refused e) = inl (e, refl)

abbrev device : Resource
device = kobject "k5_device"

abbrev attribute : Resource
attribute = sysfs_file "k5_device" "mode_level"

module _ (k : Kernel) (ok : IsKernel k) where
  pub one_stage-Undone :
      (e₁ : Errno → Errno) (r : Resource) (w : k.World)
      → Undone k (k.unregister r) w (one_stage k e₁ r w)
  one_stage-Undone e₁ r w = elim (Registered-cases (k.register r w)) [
    | inl (x, q) ↦ rw (q, one_stage) refl
    | inr (v, q) ↦ rw (q, one_stage) (ok.unregister-register r w v q)
  ]

  pub two_stages-Undone :
      (e₁ e₂ : Errno → Errno) (r₁ r₂ : Resource) (w : k.World)
      → Undone k (λ w. k.unregister r₁ (k.unregister r₂ w)) w (two_stages k e₁ e₂ r₁ r₂ w)
  two_stages-Undone e₁ e₂ r₁ r₂ w = elim (Registered-cases (k.register r₁ w)) [
    | inl (x, q) ↦ rw (q, two_stages) refl
    | inr (v, q) ↦ elim (Registered-cases (k.register r₂ v)) [
      | inl (y, p) ↦ rw (q, p, two_stages) (ok.unregister-register r₁ w v q)
      | inr (u, p) ↦
          rw (q, p, two_stages, ok.unregister-register r₂ v u p) (ok.unregister-register r₁ w v q)
    ]
  ]

  pub sysfs-Undone : (w : k.World) → Undone k (sysfs_exit k) w (sysfs_init k w)
  unfolding sysfs_init sysfs_exit
  sysfs-Undone w = elim (Registered-cases (k.register device w)) [
    | inl (x, q) ↦ rw (q, sysfs_init) refl
    | inr (v, q) ↦ elim (Registered-cases (k.register attribute v)) [
      | inl (y, p) ↦ rw (q, p, sysfs_init) (ok.unregister-register device w v q)
      | inr (u, p) ↦
          rw (q, p, sysfs_init, ok.unregister-sysfs_file "k5_device" "mode_level" v u p)
            (ok.unregister-register device w v q)
    ]
  ]
