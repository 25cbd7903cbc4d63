-- ===== src/Uefi/DevicePath/NodeSafe.antt =====
-- No input makes the parser of device paths panic.
use gprovision.Prelude.{
  Bool, Bool-cases, Bytes, [], arith, drop, false, if◌then◌else◌, inl, inr, length, ltb, refl, take,
  take-eq_of_length, true, ℕ, ◌&&◌, ◌+◌, ◌==◌, ◌∷◌, ◌≡◌, ◌≢◌, ◌≤◌,
}
use gprovision.Uefi.Nodes.{
  Header, Node, acpi_ex_dev_path, parse_acpi_dev_path, parse_acpi_ex_dev_path, parse_acpi_strings,
  parse_hw_pci, parse_media_file_path, parse_media_hdd, parse_media_piwgff, parse_media_piwgfv,
  parse_msg_atapi, parse_msg_mac, parse_node, read_to_null, rest_of,
}
use gprovision.Uefi.Outcome.{
  Outcome, Outcome-cases, at_in_range, panicked, parsed, slice, slice_in_range, ◌>>=◌,
}

-- The node parsers see the bytes that the header counts.
abbrev pub IsBody : Header → Bytes → Type 0
IsBody h b = h.len ≡ length b + 4

parse_hw_pci-safe : (h : Header) (b : Bytes) → parse_hw_pci h b ≢ panicked
unfolding parse_hw_pci
parse_hw_pci-safe h b = elim (Bool-cases (length b == 2)) [
  | inl t ↦
      let (f, ef) = at_in_range b 0 (ground (arith, t)) in
      let (d, ed) = at_in_range b 1 (ground (arith, t)) in ground (arith, t, ef, ed)
  | inr f ↦ ground (arith, f)
]

parse_acpi_dev_path-safe :
    (h : Header) (b : Bytes) → IsBody h b → parse_acpi_dev_path h b ≢ panicked
unfolding parse_acpi_dev_path slice
parse_acpi_dev_path-safe h b i = ground (arith, i)

parse_msg_atapi-safe : (h : Header) (b : Bytes) → IsBody h b → parse_msg_atapi h b ≢ panicked
unfolding parse_msg_atapi slice
parse_msg_atapi-safe h b i = elim (Bool-cases (h.len == 8)) [
  | inl t ↦
      let (p, ep) = at_in_range b 0 (ground (arith, t, i)) in
      let (m, em) = at_in_range b 1 (ground (arith, t, i)) in ground (arith, t, i, ep, em)
  | inr f ↦ ground (arith, f)
]

parse_msg_mac-safe : (h : Header) (b : Bytes) → IsBody h b → parse_msg_mac h b ≢ panicked
unfolding parse_msg_mac slice
parse_msg_mac-safe h b i = elim (Bool-cases (h.len == 37)) [
  | inl t ↦ let (x, e) = at_in_range b 32 (ground (arith, t, i)) in ground (arith, t, i, e)
  | inr f ↦ ground (arith, f)
]

parse_media_hdd-safe : (h : Header) (b : Bytes) → parse_media_hdd h b ≢ panicked
unfolding parse_media_hdd slice
parse_media_hdd-safe h b = elim (Bool-cases (ltb (length b) 38)) [
  | inl t ↦ ground (arith, t)
  | inr f ↦
      let (x, ex) = at_in_range b 36 (ground (arith, f)) in
      let (y, ey) = at_in_range b 37 (ground (arith, f)) in ground (arith, f, ex, ey)
]

parse_media_file_path-safe :
    (h : Header) (b : Bytes) → IsBody h b → parse_media_file_path h b ≢ panicked
unfolding parse_media_file_path slice
parse_media_file_path-safe h b i = ground (arith, i)

-- A string that is read ends before the buffer does.
read_to_null-shorter : (b : Bytes) {s : Bytes} → read_to_null b ≡ parsed s → length s + 1 ≤ length b
unfolding read_to_null
read_to_null-shorter [] h = ground arith
read_to_null-shorter (c ∷ b) {s} h = elim (Outcome-cases (read_to_null b)) [
  | inl (t, e) ↦ ground (arith, e, read_to_null-shorter b e)
  | inr (inl e) ↦ ground (arith, e)
  | inr (inr e) ↦ ground (arith, e)
]

read_to_null-safe : (b : Bytes) → read_to_null b ≢ panicked
unfolding read_to_null
read_to_null-safe [] = ground arith
read_to_null-safe (c ∷ b) = ground (arith, read_to_null-safe b)

rest_of_in_range : (b : Bytes) (n : ℕ) → n ≤ length b → rest_of b n ≡ parsed (drop n b)
unfolding rest_of slice
rest_of_in_range b n h = ground (arith, take-eq_of_length (length b) b (omega arith))

-- One string and the rest behind it.
read_step-safe :
    (b : Bytes) (k : Bytes → Bytes → Outcome Node)
    → ((s t : Bytes) → k s t ≢ panicked)
    → (do s ← read_to_null b; t ← rest_of b (length s + 1); k s t) ≢ panicked
read_step-safe b k good = elim (Outcome-cases (read_to_null b)) [
  | inl (s, e) ↦
      rw (e, rest_of_in_range b (length s + 1) (read_to_null-shorter b e))
        (good s (drop (length s + 1) b))
  | inr (inl e) ↦ rw e (ground arith)
  | inr (inr e) ↦ absurd (read_to_null-safe b e)
]

last_string-safe : (b : Bytes) (k : Bytes → Node) → (do s ← read_to_null b; parsed (k s)) ≢ panicked
last_string-safe b k = elim (Outcome-cases (read_to_null b)) [
  | inl (s, e) ↦ rw e (ground arith)
  | inr (inl e) ↦ rw e (ground arith)
  | inr (inr e) ↦ absurd (read_to_null-safe b e)
]

parse_acpi_strings-safe :
    (h : Header) (hid uid cid b : Bytes) → parse_acpi_strings h hid uid cid b ≢ panicked
unfolding parse_acpi_strings
parse_acpi_strings-safe h hid uid cid b =
    read_step-safe b
      (λ s t. do
        u ← read_to_null t
        v ← rest_of t (length u + 1)
        w ← read_to_null v
        parsed (acpi_ex_dev_path h hid uid cid s u w))
      (λ s t.
        read_step-safe t
          (λ u v. do w ← read_to_null v; parsed (acpi_ex_dev_path h hid uid cid s u w))
          (λ u v. last_string-safe v (λ w. acpi_ex_dev_path h hid uid cid s u w)))

parse_acpi_ex_dev_path-safe :
    (h : Header) (b : Bytes) → IsBody h b → parse_acpi_ex_dev_path h b ≢ panicked
unfolding parse_acpi_ex_dev_path
parse_acpi_ex_dev_path-safe h b i = elim (Bool-cases (ltb h.len 19)) [
  | inl t ↦ ground (arith, t)
  | inr f ↦
      let long : 15 ≤ length b = ground (arith, f, i) in
      rw
        (
          f,
          slice_in_range b 0 4 (omega arith) (omega (arith, long)),
          slice_in_range b 4 8 (omega arith) (omega (arith, long)),
          slice_in_range b 8 12 (omega arith) (omega (arith, long)),
          rest_of_in_range b 12 (omega (arith, long)),
        )
        (parse_acpi_strings-safe h (take 4 b) (drop 4 (take 8 b)) (drop 8 (take 12 b)) (drop 12 b))
]

pub if-safe :
    {A : Type 0} {x y : Outcome A} (c : Bool)
    → (c ≡ true → x ≢ panicked)
    → (c ≡ false → y ≢ panicked)
    → (if c then x else y) ≢ panicked
if-safe true f g = f refl
if-safe false f g = g refl

-- A node never makes its parser panic.
pub parse_node-safe : (h : Header) (b : Bytes) → IsBody h b → parse_node h b ≢ panicked
unfolding parse_node parse_media_piwgff parse_media_piwgfv
parse_node-safe h b i =
    let t = h.proto_type in
    let s = h.proto_sub_type in
    if-safe (t == 1 && s == 1) (λ c. parse_hw_pci-safe h b)
      (λ c.
        if-safe (t == 2 && s == 1) (λ c. parse_acpi_dev_path-safe h b i)
          (λ c.
            if-safe (t == 2 && s == 2) (λ c. parse_acpi_ex_dev_path-safe h b i)
              (λ c.
                if-safe (t == 3 && s == 1) (λ c. parse_msg_atapi-safe h b i)
                  (λ c.
                    if-safe (t == 3 && s == 11) (λ c. parse_msg_mac-safe h b i)
                      (λ c.
                        if-safe (t == 4 && s == 1) (λ c. parse_media_hdd-safe h b)
                          (λ c.
                            if-safe (t == 4 && s == 4) (λ c. parse_media_file_path-safe h b i)
                              (λ c. ground arith)))))))
