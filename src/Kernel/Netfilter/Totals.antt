-- ===== src/Kernel/Netfilter/Totals.antt =====
-- The sums over the CPUs that the statistics show.
use cppcourse.Base.{ℕ, ◌+◌, ◌<◌, ◌%◌, ◌^◌, ◌≡◌, ◌∙◌, arith, List, [], ◌∷◌, map}
use cppcourse.Base.{◌++◌, refl}
use cppcourse.Base.Text.{codes, decimal}
use cppcourse.Kernel.Netfilter.{Stats, no_stats, total_stats, k6_show}
use cppcourse.Kernel.Probes.{total}

abbrev pub sum : List ℕ → ℕ
sum [] = 0
sum (n ∷ ns) = n + sum ns

total_from : (ns : List ℕ) (start : ℕ) → start < 2 ^ 64 → total ns start ≡ (start + sum ns) % 2 ^ 64
unfolding total
total_from [] start h = omega arith
total_from (n ∷ ns) start h = total_from ns ((start + n) % 2 ^ 64) (omega arith) ∙ omega arith

-- The count that a probe shows is the sum over the CPUs modulo 2 ^ 64: a sum that fits is exact.
pub total_lem : (counts : List ℕ) → total counts 0 ≡ sum counts % 2 ^ 64
total_lem counts = omega (arith, total_from counts 0 (omega arith))

total_stats_from :
    (s : List Stats) (t : Stats)
    → (t.tcp < 2 ^ 64) × (t.udp < 2 ^ 64) × (t.icmp < 2 ^ 64) × (t.other < 2 ^ 64)
    → total_stats s t ≡ record {
      tcp = (t.tcp + sum (map (λ c. c.tcp) s)) % 2 ^ 64;
      udp = (t.udp + sum (map (λ c. c.udp) s)) % 2 ^ 64;
      icmp = (t.icmp + sum (map (λ c. c.icmp) s)) % 2 ^ 64;
      other = (t.other + sum (map (λ c. c.other) s)) % 2 ^ 64;
    }
unfolding total_stats
total_stats_from [] t h = ground arith
total_stats_from (c ∷ s) t h =
    total_stats_from s
      (record {
        tcp = (t.tcp + c.tcp) % 2 ^ 64;
        udp = (t.udp + c.udp) % 2 ^ 64;
        icmp = (t.icmp + c.icmp) % 2 ^ 64;
        other = (t.other + c.other) % 2 ^ 64;
      })
      (omega arith)
    ∙ ground arith

-- Each total of the packet statistics is the sum of that counter over the CPUs modulo 2 ^ 64.
pub total_stats_lem :
    (s : List Stats)
    → total_stats s no_stats ≡ record {
      tcp = sum (map (λ c. c.tcp) s) % 2 ^ 64;
      udp = sum (map (λ c. c.udp) s) % 2 ^ 64;
      icmp = sum (map (λ c. c.icmp) s) % 2 ^ 64;
      other = sum (map (λ c. c.other) s) % 2 ^ 64;
    }
total_stats_lem s = total_stats_from s no_stats (omega arith) ∙ ground arith

-- What the proc entry of the packet statistics shows are, for each protocol, the packets that the CPUs have
-- counted together, modulo 2 ^ 64.
pub k6_show_lem :
    (s : List Stats)
    → let shown : (Stats → ℕ) → List ℕ = λ f. decimal (sum (map f s) % 2 ^ 64) in
      k6_show s
      ≡ codes "tcp="
        ++ shown (λ c. c.tcp)
        ++ codes " udp="
        ++ shown (λ c. c.udp)
        ++ codes " icmp="
        ++ shown (λ c. c.icmp)
        ++ codes " other="
        ++ shown (λ c. c.other)
        ++ codes "\n"
unfolding k6_show
k6_show_lem s = rw (total_stats_lem s) refl
