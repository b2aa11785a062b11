-- ===== src/Kernel/Tests.antt =====
-- A small kernel in which the modules are run, and the laws that it keeps.
pub mod Runs
pub mod Work
use cppcourse.Base.{
  ℕ, ◌+◌, ◌-◌, ◌*◌, ◌≡◌, refl, sym, arith, ◌==◌, leb, ltb, ◌&&◌, if◌then◌else◌, true, List, [], ◌∷◌,
  ◌++◌, ◌∙◌, take-length_take, Option, none, some, length, take, drop, replicate,
}
use cppcourse.Base.{ap, length-append, length-take, length-replicate}
use cppcourse.Base.Int.{ℤ, pos}
use cppcourse.Base.Text.{codes}
use cppcourse.Kernel.Api.{
  Kernel, IsKernel, Ret, Reply, Resource, sysfs_file, Registered, registered, refused, einval,
}

-- User memory: the strings at a few addresses, and zeros behind them. Address 0 faults.
abbrev user : ℕ → List ℕ
user u =
    if u == 1
    then codes "push 42\n"
    else if u == 2
    then codes "boot 7\n"
    else if u == 3
    then codes "hello"
    else []

abbrev copy_from : ℕ → ℕ → Option (List ℕ)
copy_from u n = if u == 0 then none else some (take n (user u ++ replicate n 0))

-- A line end at the end is cut off.
abbrev trim : List ℕ → List ℕ
trim [] = []
trim (c ∷ s) = let rest = trim s in if c == b'\n' then [] else c ∷ rest

abbrev number_from : ℕ → List ℕ → Option ℕ
number_from n [] = some n
number_from n (c ∷ s) =
    let rest = number_from (n * 10 + (c - b'0')) s in
    if leb b'0' c && leb c b'9' then rest else none

abbrev parse : List ℕ → Option ℤ
parse [] = none
parse (c ∷ s) = elim (number_from 0 (c ∷ s)) [ none ↦ none | some n ↦ some (pos n) ]

abbrev simple_read : ℕ → ℕ → ℕ → List ℕ → Reply
simple_read u n p buf = record {
  ret = Ret.count (length (take n (drop p buf)));
  copied = take n (drop p buf);
  pos = p + length (take n (drop p buf));
}

-- The latest registration comes first. A sysfs file belongs to its kobject and has no entry.
abbrev enter : ℕ → Resource → List Resource → Registered (List Resource)
enter room (sysfs_file o f) w = registered w
enter room r w = if ltb (length w) room then registered (r ∷ w) else refused einval

abbrev leave : Resource → List Resource → List Resource
leave (sysfs_file o f) w = w
leave r [] = []
leave r (x ∷ w) = w

-- `room` registrations are possible at a time.
abbrev pub small_kernel : ℕ → Kernel
small_kernel room = record {
  World = List Resource;
  register = enter room;
  unregister = leave;
  copy_from_user = copy_from;
  copied_before_fault = λ u n. [];
  copy_to_user = λ u bytes. true;
  simple_read_from_buffer = simple_read;
  kstrtol = parse;
  kstrtoint = parse;
  strim = λ s. record { left = trim s; start = trim s };
  scnprintf = λ size text. take (size - 1) text;
  seq_list_start = λ items n. if ltb n (length items) then some n else none;
  seq_list_next = λ v items n. (n + 1, if ltb (v + 1) (length items) then some (v + 1) else none);
}

leave-enter :
    (room : ℕ) (r : Resource) (w w' : List Resource)
    → enter room r w ≡ registered w'
    → leave r w' ≡ w
leave-enter room r w w' h = ground arith

length-copy_from : (u n : ℕ) (bytes : List ℕ) → copy_from u n ≡ some bytes → length bytes ≡ n
length-copy_from u n bytes h =
    let full : length (take n (user u ++ replicate n 0)) ≡ n = omega (
      arith,
      length-take n (user u ++ replicate n 0),
      length-append (user u) (replicate n 0),
      length-replicate {A = ℕ} n 0,
    ) in
    ground arith

same_world : {w w' : List Resource} → registered w ≡ registered w' → w' ≡ w
same_world h = cc

same_count : {a b : ℕ} → Ret.count a ≡ Ret.count b → a ≡ b
same_count h = cc

pub small_kernel-IsKernel : (room : ℕ) → IsKernel (small_kernel room)
small_kernel-IsKernel room = record {
  unregister-register = leave-enter room;
  unregister-sysfs_file = λ o f w w' h. ap (leave (Resource.kobject o)) (same_world h);
  length-copy_from_user = length-copy_from;
  simple_read = λ u n p buf c h.
      let same = same_count h in
      (
        sym (take-length_take n (drop p buf)) ∙ ap (λ (t : ℕ). take t (drop p buf)) same,
        omega (arith, same),
        ap (λ (t : ℕ). p + t) same,
      );
  length-copied_before_fault = λ u n. omega arith;
  scnprintf_lem = λ size text h. refl;
}
