-- ===== src/Uefi/DevicePath/Safe.antt =====
-- `ParseFilePathList` ends on every input, and never by a panic.
use gprovision.Prelude.{
  Bool, Bytes, List, [], arith, drop, false, inl, inr, length, length-drop, length-take, ltb, refl,
  suc, take, true, zero, ℕ, ◌++◌, ◌+◌, ◌-◌, ◌<◌, ◌==◌, ◌∷◌, ◌≡◌, ◌≢◌, ◌≤◌,
}
use gprovision.Uefi.DevicePath.{dpp_type_end, finish, header, parse_file_path_list, parse_loop}
use gprovision.Uefi.DevicePath.NodeSafe.{IsBody, if-safe, parse_node-safe}
use gprovision.Uefi.Nodes.{Header, Node, parse_node}
use gprovision.Uefi.Outcome.{Outcome, Outcome-cases, e_parse, panicked, ◌>>=◌}

finish-safe :
    (reached_end : Bool) (b : Bytes) (list : List Node) → finish reached_end b list ≢ panicked
unfolding finish
finish-safe reached_end b list = ground arith

e_parse-safe : ◌≢◌ {A = Outcome (List Node)} e_parse panicked
e_parse-safe = ground arith

-- One round on a node that is not the end.
parse_step-safe :
    (h : Header) (b : Bytes) (k : Node → Outcome (List Node))
    → IsBody h b
    → ((p : Node) → k p ≢ panicked)
    → (do p ← parse_node h b; k p) ≢ panicked
parse_step-safe h b k i good = elim (Outcome-cases (parse_node h b)) [
  | inl (p, e) ↦ rw e (good p)
  | inr (inl e) ↦ rw e (ground arith)
  | inr (inr e) ↦ absurd (parse_node-safe h b i e)
]

parse_loop_short :
    (n : ℕ) (b : Bytes) (list : List Node)
    → length b < 4
    → parse_loop n b list ≡ finish false b list
unfolding parse_loop
parse_loop_short zero [] list h = refl
parse_loop_short zero (t ∷ []) list h = refl
parse_loop_short zero (t ∷ s ∷ []) list h = refl
parse_loop_short zero (t ∷ s ∷ lo ∷ []) list h = refl
parse_loop_short (suc n) [] list h = refl
parse_loop_short (suc n) (t ∷ []) list h = refl
parse_loop_short (suc n) (t ∷ s ∷ []) list h = refl
parse_loop_short (suc n) (t ∷ s ∷ lo ∷ []) list h = refl
parse_loop_short n (t ∷ s ∷ lo ∷ hi ∷ rest) list h = absurd (omega (arith, h))

parse_loop-safe :
    (n : ℕ) (b : Bytes) (list : List Node) → length b ≤ n → parse_loop n b list ≢ panicked
unfolding parse_loop
parse_loop-safe zero b list h =
    rw (parse_loop_short zero b list (omega (arith, h))) (finish-safe false b list)
parse_loop-safe (suc n) (t ∷ s ∷ lo ∷ hi ∷ rest) list h =
    let hdr = header t s lo hi in
    if-safe (ltb hdr.len 4) (λ small. e_parse-safe)
      (λ big.
        if-safe (ltb (length rest + 4) hdr.len) (λ under. e_parse-safe)
          (λ inside.
            if-safe (t == dpp_type_end) (λ end. finish-safe true (drop (hdr.len - 4) rest) list)
              (λ more.
                parse_step-safe hdr (take (hdr.len - 4) rest)
                  (λ p. parse_loop n (drop (hdr.len - 4) rest) (list ++ p ∷ []))
                  (ground (arith, big, inside, length-take (hdr.len - 4) rest))
                  (λ p.
                    parse_loop-safe n (drop (hdr.len - 4) rest) (list ++ p ∷ [])
                      (ground (arith, big, inside, h, length-drop (hdr.len - 4) rest))))))
parse_loop-safe (suc n) [] list h = finish-safe false [] list
parse_loop-safe (suc n) (t ∷ []) list h = finish-safe false (t ∷ []) list
parse_loop-safe (suc n) (t ∷ s ∷ []) list h = finish-safe false (t ∷ s ∷ []) list
parse_loop-safe (suc n) (t ∷ s ∷ lo ∷ []) list h = finish-safe false (t ∷ s ∷ lo ∷ []) list

-- `ParseFilePathList` returns a list or an error for every input: no index is out of range, and the
-- loop makes no more rounds than there are bytes.
pub parse_file_path_list-safe : (b : Bytes) → parse_file_path_list b ≢ panicked
unfolding parse_file_path_list
parse_file_path_list-safe b = parse_loop-safe (length b) b [] (omega arith)
