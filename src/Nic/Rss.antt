-- ===== src/Nic/Rss.antt =====
-- pkg/hw/nic/irq.go and rss.go: the interrupts of an interface, and the processors they are bound to.
pub mod Bound
use gprovision.Cpu.{CpuSet, Topology, UseCount, create_set_weighted}
use gprovision.Prelude.{
  Bool, Bytes, List, Option, [], codes, has_prefix, if◌then◌else◌, length, ltb, none, parse_uint,
  some, to_lower, true, ℕ, ◌||◌, ◌∷◌,
}

-- `strings.Contains`
unfoldable pub has_text : Bytes → Bytes → Bool
has_text [] part = has_prefix [] part
has_text (b ∷ s) part = let rest = has_text s part in if has_prefix (b ∷ s) part then true else rest

-- `IsQueueIrq`, with the name of the interrupt.
unfoldable pub is_queue_irq : Bytes → Bool
is_queue_irq name = let n = to_lower name in has_text n (codes "rx") || has_text n (codes "tx")

-- The interrupts in a directory's names, `none` if one is not a number.
unfoldable pub parse_irqs : List Bytes → Option (List ℕ)
parse_irqs [] = some []
parse_irqs (f ∷ d) =
    let rest = parse_irqs d in
    elim (parse_uint 10 64 f) [
      | none ↦ none
      | some i ↦ elim rest [ none ↦ none | some irqs ↦ some (i ∷ irqs) ]
    ]

-- The loop of `FindIRQs` that drops the first interrupt that is not a queue's.
unfoldable pub drop_main : (ℕ → Bytes) → List ℕ → List ℕ
drop_main irq_name [] = []
drop_main irq_name (i ∷ irqs) =
    let rest = drop_main irq_name irqs in if is_queue_irq (irq_name i) then i ∷ rest else irqs

-- `FindIRQs`, with the names in the device's directory, `none` if it cannot be read. On an error
-- the interface has no interrupts and their number is 0.
unfoldable pub find_irqs : (ℕ → Bytes) → Option (List Bytes) → List ℕ
find_irqs irq_name none = []
find_irqs irq_name (some d) = elim (parse_irqs d) [
  | none ↦ []
  | some irqs ↦ if ltb 1 (length irqs) then drop_main irq_name irqs else irqs
]

-- `AssignIRQs`: the interrupts with their processors, in the order of the writes; `none` for the
-- panic when there are more processors than interrupts.
unfoldable pub assign_irqs : List ℕ → CpuSet → Option (List (ℕ × ℕ))
assign_irqs irqs [] = some []
assign_irqs [] (c ∷ cpus) = none
assign_irqs (i ∷ irqs) (c ∷ cpus) = elim (assign_irqs irqs cpus) [
  | none ↦ none
  | some bound ↦ some ((i, c) ∷ bound)
]

-- The part of `RssConfig` that binds the interrupts, with the counts it leaves.
unfoldable pub rss_config :
    (ℕ → Bytes) → Topology → Option (List Bytes) → UseCount → Option (List (ℕ × ℕ)) × UseCount
rss_config irq_name t d uc =
    let irqs = find_irqs irq_name d in
    let made = create_set_weighted t (length irqs) uc in (assign_irqs irqs made.0, made.1)
