-- ===== src/Kernel/Netfilter.antt =====
-- The packet hooks of content/exercises/k6: 01-nf-drop, 02-nf-port-filter, 03-nf-log-stats and
-- 04-nf-modify-ttl, each in its starter.c.
pub mod Totals
use cppcourse.Base.{ℕ, ◌+◌, ◌%◌, ◌^◌, leb, ◌==◌, not, List, [], ◌∷◌, ◌++◌, Option, none, some}
use cppcourse.Base.{if◌then◌else◌}
use cppcourse.Base.Text.{codes, decimal}
use cppcourse.Kernel.Api.{Kernel, einval, enomem, proc, nf_hook, registered, refused}
use cppcourse.Kernel.Device.{Loaded, loaded, failed, register_init}

pub data Verdict : Type 0 where
  nf_accept nf_drop : Verdict

-- The fields of `struct iphdr` that the hooks read.
pub record IpHdr : Type 0 where
  pub protocol : ℕ
  pub ttl : ℕ

-- A packet by what `ip_hdr(skb)` returns, `none` being NULL.
pub record SkBuff : Type 0 where
  pub ip_hdr : Option IpHdr

abbrev pub ipproto_tcp : ℕ
ipproto_tcp = 6

unfoldable pub drop_hook : Option SkBuff → Verdict
drop_hook none = nf_accept
drop_hook (some skb) = elim skb.ip_hdr [ none ↦ nf_accept | some iph ↦ nf_accept ]

unfoldable pub drop_init : (k : Kernel) → k.World → Loaded k.World
drop_init k w = register_init k nf_hook w

unfoldable pub drop_exit : (k : Kernel) → k.World → k.World
drop_exit k w = k.unregister nf_hook w

-- The port filter, at its parameter `block_port`.
unfoldable pub port_hook : ℕ → Option SkBuff → Verdict
port_hook block_port none = nf_accept
port_hook block_port (some skb) = if block_port == 0 then nf_accept else elim skb.ip_hdr [
  | none ↦ nf_accept
  | some iph ↦ if not (iph.protocol == ipproto_tcp) then nf_accept else nf_accept
]

unfoldable pub port_init : (k : Kernel) → k.World → Loaded k.World
port_init k w = register_init k nf_hook w

unfoldable pub port_exit : (k : Kernel) → k.World → k.World
port_exit k w = k.unregister nf_hook w

-- The counters of one CPU; each is a `u64`.
pub record Stats : Type 0 where
  pub tcp : ℕ
  pub udp : ℕ
  pub icmp : ℕ
  pub other : ℕ

abbrev pub no_stats : Stats
no_stats = record { tcp = 0; udp = 0; icmp = 0; other = 0 }

-- `u64` addition.
abbrev pub add64 : ℕ → ℕ → ℕ
add64 a b = (a + b) % 2 ^ 64

unfoldable pub count_hook : Option SkBuff → Stats → Stats × Verdict
count_hook none s = (s, nf_accept)
count_hook (some skb) s = elim skb.ip_hdr [ none ↦ (s, nf_accept) | some iph ↦ (s, nf_accept) ]

-- The loop over the possible CPUs.
unfoldable pub total_stats : List Stats → Stats → Stats
total_stats [] total = total
total_stats (s ∷ k6_stats) total = total_stats k6_stats (record {
  tcp = add64 total.tcp s.tcp;
  udp = add64 total.udp s.udp;
  icmp = add64 total.icmp s.icmp;
  other = add64 total.other s.other;
})

-- What `seq_printf` is given to write.
unfoldable pub k6_show : List Stats → List ℕ
k6_show k6_stats =
    let total = total_stats k6_stats no_stats in
    codes "tcp="
    ++ decimal total.tcp
    ++ codes " udp="
    ++ decimal total.udp
    ++ codes " icmp="
    ++ decimal total.icmp
    ++ codes " other="
    ++ decimal total.other
    ++ codes "\n"

unfoldable pub stats_init : (k : Kernel) → k.World → Loaded k.World
stats_init k w = elim (k.register (proc "k6_stats") w) [
  | refused e ↦ failed enomem w
  | registered w1 ↦ elim (k.register nf_hook w1) [
    | refused e ↦ failed einval (k.unregister (proc "k6_stats") w1)
    | registered w2 ↦ loaded w2
  ]
]

unfoldable pub stats_exit : (k : Kernel) → k.World → k.World
stats_exit k w = k.unregister (proc "k6_stats") (k.unregister nf_hook w)

-- The TTL hook leaves the packet as it is.
unfoldable pub ttl_hook : Option SkBuff → Verdict
ttl_hook none = nf_accept
ttl_hook (some skb) = elim skb.ip_hdr [
  | none ↦ nf_accept
  | some iph ↦ if leb iph.ttl 1 then nf_accept else nf_accept
]

unfoldable pub ttl_init : (k : Kernel) → k.World → Loaded k.World
ttl_init k w = register_init k nf_hook w

unfoldable pub ttl_exit : (k : Kernel) → k.World → k.World
ttl_exit k w = k.unregister nf_hook w

-- `struct nf_hook_ops` for IPv4 packets, with the hook that it offers.
pub data HookPoint : Type 0 where
  nf_inet_local_in nf_inet_local_out : HookPoint

pub data Priority : Type 0 where
  nf_ip_pri_filter : Priority

pub record HookOps (Hook : Type 0) : Type 0 where
  pub hook : Hook
  pub hooknum : HookPoint
  pub priority : Priority

abbrev pub drop_ops : HookOps (Option SkBuff → Verdict)
drop_ops = record { hook = drop_hook; hooknum = nf_inet_local_in; priority = nf_ip_pri_filter }

-- At the parameter `block_port`.
abbrev pub port_ops : ℕ → HookOps (Option SkBuff → Verdict)
port_ops block_port = record {
  hook = port_hook block_port;
  hooknum = nf_inet_local_in;
  priority = nf_ip_pri_filter;
}

abbrev pub stats_ops : HookOps (Option SkBuff → Stats → Stats × Verdict)
stats_ops = record { hook = count_hook; hooknum = nf_inet_local_in; priority = nf_ip_pri_filter }

abbrev pub ttl_ops : HookOps (Option SkBuff → Verdict)
ttl_ops = record { hook = ttl_hook; hooknum = nf_inet_local_out; priority = nf_ip_pri_filter }
