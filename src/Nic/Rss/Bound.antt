-- ===== src/Nic/Rss/Bound.antt =====
-- Every interrupt of an interface gets a processor of its own while there are processors.
use gprovision.Cpu.{CpuSet, Topology, UseCount, create_set_weighted, set_size}
use gprovision.Cpu.Chosen.{Visits, create_set_weighted-Distinct}
use gprovision.Cpu.Counts.{Distinct, keys}
use gprovision.Nic.Rss.{assign_irqs, find_irqs, rss_config}
use gprovision.Prelude.{
  Bytes, List, Option, [], ap, arith, length, refl, some, sym, take, ℕ, ◌∷◌, ◌≡◌, ◌≤◌,
}

unfoldable pub bound_cpus : List (ℕ × ℕ) → CpuSet
bound_cpus [] = []
bound_cpus ((i, c) ∷ bound) = c ∷ bound_cpus bound

unfoldable pub bound_irqs : List (ℕ × ℕ) → List ℕ
bound_irqs [] = []
bound_irqs ((i, c) ∷ bound) = i ∷ bound_irqs bound

-- What `AssignIRQs` does with no more processors than interrupts.
abbrev pub Assigned : List ℕ → CpuSet → List (ℕ × ℕ) → Type 0
Assigned irqs cpus bound =
    (assign_irqs irqs cpus ≡ some bound)
    × (bound_cpus bound ≡ cpus)
    × (bound_irqs bound ≡ take (length cpus) irqs)

assign_irqs-Assigned :
    (irqs : List ℕ) (cpus : CpuSet)
    → length cpus ≤ length irqs
    → (bound : List (ℕ × ℕ)) × Assigned irqs cpus bound
unfolding assign_irqs bound_cpus bound_irqs
assign_irqs-Assigned irqs [] h = ([], (refl, refl, refl))
assign_irqs-Assigned [] (c ∷ cpus) h = absurd (omega arith)
assign_irqs-Assigned (i ∷ irqs) (c ∷ cpus) h =
    let later = assign_irqs-Assigned irqs cpus (omega arith) in
    let (bound, (e, es, is)) = later in
    ((i, c) ∷ bound, (rw e refl, ap (λ s. c ∷ s) es, ap (λ s. i ∷ s) is))

-- If the order of a map's keys visits each of them once, the online processors are distinct and no
-- fewer than the number of processors, and the counts have one entry for each key, `RssConfig`
-- does not panic: it binds the first interrupts of the interface, as many as there are processors
-- and as their number modulo 2^16, to distinct processors.
pub rss_config-Distinct :
    (irq_name : ℕ → Bytes) (t : Topology) (d : Option (List Bytes)) (uc : UseCount)
    → Visits t
    → Distinct t.all_cpus
    → t.num_cpus ≤ length t.all_cpus
    → Distinct (keys uc)
    → (bound : List (ℕ × ℕ)) × ((rss_config irq_name t d uc).0 ≡ some bound)
      × Distinct (bound_cpus bound)
      × (bound_irqs bound
          ≡ take (set_size t (length (find_irqs irq_name d))) (find_irqs irq_name d))
unfolding rss_config
rss_config-Distinct irq_name t d uc v ds n h =
    let irqs = find_irqs irq_name d in
    let made = create_set_weighted-Distinct t (length irqs) uc v ds n h in
    let fits : set_size t (length irqs) ≤ length irqs = unfold set_size in ground arith in
    let (bound, (e, cs, is)) =
      assign_irqs-Assigned irqs (create_set_weighted t (length irqs) uc).0 (omega arith) in
    (bound, e, rw cs made.0, rw (sym made.1) is)
