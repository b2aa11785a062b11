-- ===== src/Kernel/Page/Refine.antt =====
-- content/exercises/k4/03-page-alloc/starter.c: the device and a store of one string.
use cppcourse.Base.{
  ℕ, zero, suc, ◌≤◌, ◌≡◌, refl, ap, ◌∙◌, sym, arith, min, inl, inr, List, [], ◌∷◌, ◌++◌, Option,
  none, some, length, take, drop, Option-cases,
}
use cppcourse.Kernel.Api.{Kernel, IsKernel, Reply, efault, enomem}
use cppcourse.Kernel.Device.{Call, fail, accept}
use cppcourse.Kernel.Page.{PageState, page_size, overwrite, page_write, page_read}
use cppcourse.Kernel.Page.Writes.{
  Holds, IsValid, length-overwrite, length-bytes, page_write_lem, page_write_fault, read_back,
}

pub data Request : Type 0 where
  read : Call → Request
  write : Call → Request

-- A request to the device, and the requests in turn with their replies.
unfoldable pub handle : Kernel → Request → PageState → PageState × Reply
handle k (read c) s = page_read k c s
handle k (write c) s = page_write k c s

unfoldable pub serve : Kernel → List Request → PageState → List Reply
serve k [] s = []
serve k (r ∷ rs) s = let (s', reply) = handle k r s in reply ∷ serve k rs s'

-- The string `d` after a copy that faulted has put `bytes` at its start: its length stays.
abbrev pub overlay : List ℕ → List ℕ → List ℕ
overlay bytes d = take (length d) bytes ++ drop (length bytes) d

-- What the device stands for: a string, or `none` if it has no page.
abbrev pub Store : Type 0
Store = Option (List ℕ)

abbrev pub contents : Store → List ℕ
contents none = []
contents (some d) = d

unfoldable pub spec_handle : Kernel → Request → Store → Store × Reply
spec_handle k (read c) d = (d, k.simple_read_from_buffer c.ubuf c.count c.pos (contents d))
spec_handle k (write c) none = (none, fail enomem c)
spec_handle k (write c) (some d) = elim (k.copy_from_user c.ubuf (min c.count page_size)) [
  | none ↦ (some (overlay (k.copied_before_fault c.ubuf (min c.count page_size)) d), fail efault c)
  | some bytes ↦ (some bytes, accept c.count c)
]

unfoldable pub spec_serve : Kernel → List Request → Store → List Reply
spec_serve k [] d = []
spec_serve k (r ∷ rs) d = let (d', reply) = spec_handle k r d in reply ∷ spec_serve k rs d'

abbrev pub store : Option (List ℕ) → ℕ → Store
store none len = none
store (some page) len = some (take len page)

take_nil : (n : ℕ) → take {A = ℕ} n [] ≡ []
take_nil zero = refl
take_nil (suc n) = refl

take-overwrite :
    (bytes page : List ℕ) (n : ℕ)
    → n ≤ length page
    → take n (overwrite bytes page) ≡ overlay bytes (take n page)
take-overwrite [] page n h = rw (take_nil (length (take n page))) refl
take-overwrite (x ∷ bytes) [] zero h = refl
take-overwrite (x ∷ bytes) [] (suc n) h = absurd (omega arith)
take-overwrite (x ∷ bytes) (y ∷ page) zero h = refl
take-overwrite (x ∷ bytes) (y ∷ page) (suc n) h =
    ap (λ l. x ∷ l) (take-overwrite bytes page n (omega arith))

-- The device with its page.
abbrev pub with_page : List ℕ → ℕ → PageState
with_page page len = record { page = some page; data_len = len }

module _ (k : Kernel) (ok : IsKernel k) where
  serve_step :
      (c : Call) (rs : List Request) (s s' : PageState) (reply : Reply)
      → page_write k c s ≡ (s', reply)
      → serve k (write c ∷ rs) s ≡ reply ∷ serve k rs s'
  unfolding serve handle
  serve_step c rs s s' reply e = ap (λ (t : PageState × Reply). t.1 ∷ serve k rs t.0) e

  spec_step :
      (c : Call) (rs : List Request) (d d' : Store) (reply : Reply)
      → spec_handle k (write c) d ≡ (d', reply)
      → spec_serve k (write c ∷ rs) d ≡ reply ∷ spec_serve k rs d'
  unfolding spec_serve
  spec_step c rs d d' reply e = ap (λ (t : Store × Reply). t.1 ∷ spec_serve k rs t.0) e

  read_step :
      (c : Call) (rs : List Request) (page : List ℕ) (len : ℕ)
      → serve k rs (with_page page len) ≡ spec_serve k rs (some (take len page))
      → serve k (read c ∷ rs) (with_page page len)
        ≡ spec_serve k (read c ∷ rs) (some (take len page))
  unfolding serve spec_serve handle page_read spec_handle
  read_step c rs page len e =
      ap (λ l. k.simple_read_from_buffer c.ubuf c.count c.pos (take len page) ∷ l) e

  serve_page :
      (rs : List Request) (page : List ℕ) (len : ℕ)
      → length page ≡ page_size
      → len ≤ page_size
      → serve k rs (with_page page len) ≡ spec_serve k rs (some (take len page))
  unfolding serve spec_serve spec_handle
  serve_page [] page len whole fits = refl
  serve_page (read c ∷ rs) page len whole fits =
      read_step c rs page len (serve_page rs page len whole fits)
  serve_page (write c ∷ rs) page len whole fits =
      elim (Option-cases (k.copy_from_user c.ubuf (min c.count page_size))) [
        | inl q ↦
            let n = min c.count page_size in
            let residue = k.copied_before_fault c.ubuf n in
            let few = ok.length-copied_before_fault c.ubuf n in
            let spec : spec_handle k (write c) (some (take len page))
                ≡ (some (overlay residue (take len page)), fail efault c) =
              rw (q, spec_handle) refl in
            let rest =
              serve_page rs (overwrite residue page) len
                (length-overwrite residue page (omega (arith, few, whole)) ∙ whole) fits in
            serve_step c rs _ _ _ (page_write_fault k ok c page len q)
            ∙ ap (λ l. fail efault c ∷ l)
                (rest
                  ∙ ap (λ d. spec_serve k rs (some d))
                      (take-overwrite residue page len (omega arith)))
            ∙ sym (spec_step c rs (some (take len page)) _ _ spec)
        | inr (bytes, q) ↦
            let spec : spec_handle k (write c) (some (take len page))
                ≡ (some bytes, accept c.count c) =
              rw (q, spec_handle) refl in
            let n = min c.count page_size in
            let rest =
              serve_page rs (overwrite bytes page) n
                (length-overwrite bytes page
                    (omega (arith, length-bytes k ok c page bytes len whole q))
                  ∙ whole)
                (omega arith) in
            serve_step c rs _ _ _ (page_write_lem k ok c page bytes len whole q)
            ∙ ap (λ l. accept c.count c ∷ l)
                (rest
                  ∙ ap (λ d. spec_serve k rs (some d)) (read_back k ok c page bytes len whole q))
            ∙ sym (spec_step c rs (some (take len page)) _ _ spec)
      ]

  serve_no_page :
      (rs : List Request) (len : ℕ)
      → serve k rs (record { page = none; data_len = len }) ≡ spec_serve k rs none
  unfolding serve spec_serve handle page_read page_write spec_handle
  serve_no_page [] len = refl
  serve_no_page (read c ∷ rs) len =
      ap (λ l. k.simple_read_from_buffer c.ubuf c.count c.pos [] ∷ l) (serve_no_page rs len)
  serve_no_page (write c ∷ rs) len = ap (λ l. fail enomem c ∷ l) (serve_no_page rs len)

  serve-store :
      (rs : List Request) (page : Option (List ℕ)) (len : ℕ)
      → Holds page len
      → serve k rs (record { page = page; data_len = len }) ≡ spec_serve k rs (store page len)
  serve-store rs none len v = serve_no_page rs len
  serve-store rs (some page) len v = serve_page rs page len v.0 v.1

  -- Whatever reads and writes come, also writes that fault, a device whose page, if it has one, is whole and
  -- whose data lie in it gives the replies of a store: of one string if it has a page; otherwise, as after
  -- the load, of one from which nothing can be read and to which no write succeeds.
  pub serve-spec_serve :
      (rs : List Request) (s : PageState)
      → IsValid s
      → serve k rs s ≡ spec_serve k rs (store s.page s.data_len)
  serve-spec_serve rs s v = serve-store rs s.page s.data_len v
