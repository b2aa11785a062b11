-- ===== src/Kernel/Client.antt =====
-- A client of the devices of content/exercises/k1 to k5: it reads pieces of one size from the start of
-- a device until a read returns 0, as cat(1) does.
use cppcourse.Base.{
  ℕ, zero, suc, ◌+◌, ◌<◌, ◌≡◌, refl, ap, ◌∙◌, sym, arith, true, List, [], ◌++◌, Option, none, some,
  length, take, drop, take-append_drop, take-length_take, nil_of_length, drop-drop, length-drop,
  length-take,
}
use cppcourse.Kernel.Api.{Kernel, IsKernel, Ret, count, error}
use cppcourse.Kernel.Device.{Call, Handler}

-- What the client has in all after a read that returned `ret` and copied `copied`, if it has `rest` from
-- the reads that follow unless it stops here.
abbrev gathered : Ret → List ℕ → Option (List ℕ) → Option (List ℕ)
gathered (error e) copied rest = none
gathered (count zero) copied rest = some []
gathered (count (suc m)) copied none = none
gathered (count (suc m)) copied (some rest) = some (copied ++ rest)

-- `none` is a read that fails, or none that returns 0 among the reads allowed.
unfoldable pub cat : {S : Type 0} → Handler S → ℕ → ℕ → ℕ → S → ℕ → Option (List ℕ)
cat read ubuf n zero s p = none
cat read ubuf n (suc reads) s p =
    let t = read (record { ubuf = ubuf; count = n; pos = p; memory = true }) s in
    gathered t.1.ret t.1.copied (cat read ubuf n reads t.0 t.1.pos)

-- User memory has room at `ubuf` for `n` bytes: a read to it copies all that it is asked for and finds.
abbrev pub HasRoom : Kernel → ℕ → ℕ → Type 0
HasRoom k ubuf n =
    (p : ℕ) (text : List ℕ)
    → (k.simple_read_from_buffer ubuf n p text).ret ≡ count (length (take n (drop p text)))

-- In the state `s` a read that has memory is one from the buffer `text`.
abbrev pub Shows : {S : Type 0} → Kernel → Handler S → S → List ℕ → Type 0
Shows k read s text =
    (c : Call)
    → c.memory ≡ true
    → read c s ≡ (s, k.simple_read_from_buffer c.ubuf c.count c.pos text)

module _ {S : Type 0} (k : Kernel) (ok : IsKernel k) (read : Handler S) (s : S) (text : List ℕ)
    (ubuf n : ℕ) where
  cat_step :
      (reads p : ℕ)
      → Shows k read s text
      → HasRoom k ubuf n
      → let c = length (take n (drop p text)) in
        cat read ubuf n (suc reads) s p
        ≡ gathered (count c) (take n (drop p text)) (cat read ubuf n reads s (p + c))
  unfolding cat
  cat_step reads p shows room =
      let e = room p text in
      let (some_copied, number, pos) = ok.simple_read ubuf n p text _ e in
      let copied = some_copied ∙ take-length_take n (drop p text) in
      rw (shows (record { ubuf = ubuf; count = n; pos = p; memory = true }) refl, e, copied, pos)
        refl

  -- The last read, and one before it.
  gathered-take :
      (c p : ℕ) (rest : Option (List ℕ))
      → 0 < n
      → c ≡ length (take n (drop p text))
      → (0 < c → rest ≡ some (drop (p + c) text))
      → gathered (count c) (take n (drop p text)) rest ≡ some (drop p text)
  gathered-take zero p rest some_room number h =
      ap some (sym (nil_of_length (drop p text) (omega (arith, length-take n (drop p text)))))
  gathered-take (suc m) p rest some_room number h =
      rw (h (omega arith), ← drop-drop p (suc m) text, number)
        (ap some (take-append_drop n (drop p text)))

  cat_from :
      (reads p : ℕ)
      → Shows k read s text
      → HasRoom k ubuf n
      → 0 < n
      → length (drop p text) < reads
      → cat read ubuf n reads s p ≡ some (drop p text)
  cat_from zero p shows room some_room h = absurd (omega arith)
  cat_from (suc reads) p shows room some_room h =
      let c = length (take n (drop p text)) in
      let at_most = length-take n (drop p text) in
      cat_step reads p shows room
      ∙ gathered-take c p _ some_room refl (λ more.
        cat_from reads (p + c) shows room some_room
          (omega (arith, at_most, length-drop (p + c) text, length-drop p text)))

  -- From a device that shows a text a client that may read more often than the text is long has exactly
  -- the text, whatever the size of its pieces.
  pub cat_lem :
      (reads : ℕ)
      → Shows k read s text
      → HasRoom k ubuf n
      → 0 < n
      → length text < reads
      → cat read ubuf n reads s 0 ≡ some text
  cat_lem reads shows room some_room h = cat_from reads 0 shows room some_room h
