-- ===== src/Kernel/Config.antt =====
-- content/exercises/k2/04-rcu-config/starter.c: a configuration behind an RCU pointer.
pub mod Leak
pub mod Parse
use cppcourse.Base.{
  ℕ, ◌+◌, ◌-◌, Bool, ◌==◌, ◌||◌, leb, List, [], ◌∷◌, ◌++◌, Option, none, some, take,
}
use cppcourse.Base.{if◌then◌else◌}
use cppcourse.Base.Int.{ℤ, pos, negsuc}
use cppcourse.Base.Text.{codes, c_str, print_ℤ}
use cppcourse.Kernel.Api.{Kernel, einval, efault, enomem}
use cppcourse.Kernel.Device.{
  Handler, FileOps, MiscDevice, Loaded, failed, fail, accept, misc_init, misc_exit,
}

-- `struct cfg`; the name is a C string that fits 48 bytes with its NUL.
pub record Cfg : Type 0 where
  pub name : List ℕ
  pub value : ℤ

-- `current_cfg`, NULL being `none`, and the number of `struct cfg` that are allocated.
pub record CfgState : Type 0 where
  pub current_cfg : Option Cfg
  pub live : ℕ

abbrev pub unloaded : CfgState
unloaded = record { current_cfg = none; live = 0 }

-- `strscpy(dst, src, 48)`
abbrev pub copy_name : List ℕ → List ℕ
copy_name src = take 47 src

unfoldable pub cfg_read : Kernel → Handler CfgState
cfg_read k c s =
    let name = codes "?" in
    let value = negsuc 0 in
    let tmp = k.scnprintf 80 (name ++ codes " " ++ print_ℤ value ++ codes "\n") in
    (s, k.simple_read_from_buffer c.ubuf c.count c.pos tmp)

-- `strchr(kbuf, ' ')`: the text before the first space and the text behind it.
unfoldable pub split_space : List ℕ → Option (List ℕ × List ℕ)
split_space [] = none
split_space (ch ∷ s) =
    if ch == b' '
    then some ([], s)
    else elim (split_space s) [ none ↦ none | some (before, after) ↦ some (ch ∷ before, after) ]

-- "<name> <value>" in `kbuf`, as `strim(kbuf)` leaves it.
unfoldable pub parse_cfg : Kernel → List ℕ → Option Cfg
parse_cfg k kbuf = elim (split_space kbuf) [
  | none ↦ none
  | some (before, after) ↦ elim (k.kstrtoint (k.strim after).start) [
    | none ↦ none
    | some value ↦ some (record { name = copy_name before; value = value })
  ]
]

-- The new configuration is allocated and filled in, but neither published nor freed.
unfoldable pub cfg_write : Kernel → Handler CfgState
cfg_write k c s =
    if c.count == 0 || leb 80 c.count
    then (s, fail einval c)
    else elim (k.copy_from_user c.ubuf c.count) [
      | none ↦ (s, fail efault c)
      | some bytes ↦ elim (parse_cfg k (k.strim (c_str bytes)).left) [
        | none ↦ (s, fail einval c)
        | some neu ↦
            if c.memory
            then (record s { live = s.live + 1 }, accept c.count c)
            else (s, fail enomem c)
      ]
    ]

abbrev pub fops : Kernel → FileOps CfgState
fops k = record {
  read = some (cfg_read k);
  write = some (cfg_write k);
  open_file = none;
  release = none;
  poll = none;
}

abbrev pub cppcfg : Kernel → MiscDevice CfgState
cppcfg k = record { name = "cppcfg"; fops = fops k; mode = some 0o666 }

abbrev pub boot : Cfg
boot = record { name = codes "boot"; value = pos 0 }

-- The flag says whether `kmalloc` succeeds.
unfoldable pub cfg_init : (k : Kernel) → Bool → k.World → CfgState → Loaded k.World × CfgState
cfg_init k memory w s =
    if memory
    then (misc_init k (cppcfg k) w, record { current_cfg = some boot; live = s.live + 1 })
    else (failed enomem w, s)

unfoldable pub cfg_exit : (k : Kernel) → k.World → CfgState → k.World × CfgState
cfg_exit k w s = (
  misc_exit k (cppcfg k) w,
  elim s.current_cfg [ none ↦ s | some p ↦ record { current_cfg = none; live = s.live - 1 } ],
)
