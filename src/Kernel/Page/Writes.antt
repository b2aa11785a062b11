-- ===== src/Kernel/Page/Writes.antt =====
-- What a write leaves in the page device.
use cppcourse.Base.{ℕ, ◌-◌, ◌≤◌, ◌≡◌, ◌∙◌, arith, min, inl, inr}
use cppcourse.Base.{List, Option, none, some, length, take, drop, length-append, length-drop}
use cppcourse.Base.{take-append, Option-cases}
use cppcourse.Kernel.Api.{Kernel, IsKernel, efault}
use cppcourse.Kernel.Device.{Call, fail, accept}
use mathlib.Core.List.{append-nil}
use cppcourse.Kernel.Page.{PageState, page_size, overwrite, page_write}

-- The page, if there is one, is whole, and the data lie in it.
abbrev pub Holds : Option (List ℕ) → ℕ → Type 0
Holds none len = len ≡ 0
Holds (some page) len = (length page ≡ page_size) × (len ≤ page_size)

abbrev pub IsValid : PageState → Type 0
IsValid s = Holds s.page s.data_len

pub length-overwrite :
    (bytes page : List ℕ) → length bytes ≤ length page → length (overwrite bytes page) ≡ length page
length-overwrite bytes page h =
    omega (arith, length-append bytes (drop (length bytes) page), length-drop (length bytes) page)

module _ (k : Kernel) (ok : IsKernel k) where
  module _ (c : Call) (page bytes : List ℕ) (len : ℕ) (whole : length page ≡ page_size)
      (copied : k.copy_from_user c.ubuf (min c.count page_size) ≡ some bytes) where
    pub page_write_lem : page_write k c (record { page = some page; data_len = len }) ≡ (
      record { page = some (overwrite bytes page); data_len = min c.count page_size },
      accept c.count c,
    )
    unfolding page_write
    page_write_lem = rw (copied, page_write)

    pub length-bytes : length bytes ≡ min c.count page_size
    length-bytes = ok.length-copy_from_user c.ubuf (min c.count page_size) bytes copied

    written-Holds : Holds (some (overwrite bytes page)) (min c.count page_size)
    written-Holds = omega (
      arith,
      length-bytes,
      length-overwrite bytes page (omega (arith, length-bytes, whole)),
      whole,
    )

    pub read_back : take (min c.count page_size) (overwrite bytes page) ≡ bytes
    read_back =
        let n = min c.count page_size in
        let room : n - length bytes ≡ 0 = omega (arith, length-bytes) in
        take-append n bytes (drop (length bytes) page) (omega (arith, length-bytes))
        ∙ rw (room, append-nil)

  pub page_write_fault :
      (c : Call) (page : List ℕ) (len : ℕ)
      → k.copy_from_user c.ubuf (min c.count page_size) ≡ none
      → page_write k c (record { page = some page; data_len = len }) ≡ (
        record {
          page = some (overwrite (k.copied_before_fault c.ubuf (min c.count page_size)) page);
          data_len = len;
        },
        fail efault c,
      )
  unfolding page_write
  page_write_fault c page len q = rw (q, page_write)

  write-Holds :
      (c : Call) (page : Option (List ℕ)) (len : ℕ)
      → Holds page len
      → IsValid (page_write k c (record { page = page; data_len = len })).0
  write-Holds c none len v = unfold page_write in v
  write-Holds c (some page) len v =
      elim (Option-cases (k.copy_from_user c.ubuf (min c.count page_size))) [
        | inl q ↦
            let residue = k.copied_before_fault c.ubuf (min c.count page_size) in
            let few = ok.length-copied_before_fault c.ubuf (min c.count page_size) in
            rw (page_write_fault c page len q) (
              omega (arith, few, length-overwrite residue page (omega (arith, few, v.0)), v.0),
              v.1,
            )
        | inr (bytes, q) ↦
            rw (page_write_lem c page bytes len v.0 q) (written-Holds c page bytes len v.0 q)
      ]

  -- A write keeps the page whole and the length of the data within it, whatever is copied.
  pub page_write-IsValid : (c : Call) (s : PageState) → IsValid s → IsValid (page_write k c s).0
  page_write-IsValid c s v = write-Holds c s.page s.data_len v
