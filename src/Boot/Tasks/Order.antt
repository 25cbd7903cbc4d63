-- ===== src/Boot/Tasks/Order.antt =====
-- The order of the tasks, and which of the default ones are there twice.
use gprovision.Boot.Tasks.{
  Defaults, HkTask, add, add_first, add_preboot_defaults, filter_out, filter_tasks, is_default,
  perform, remove_preboot_defaults,
}
use gprovision.Prelude.{
  Bool, Bool-cases, Bytes, List, [], ap, arith, codes, equal, equal_iff, false, if◌then◌else◌, inl,
  inr, refl, true, ℕ, ◌++◌, ◌+◌, ◌∷◌, ◌≡◌,
}

module _ (World : Type 0) where
  perform-append :
      (success : Bool) (tasks more : List (HkTask World)) (w : World)
      → perform World success (tasks ++ more) w
        ≡ perform World success tasks (perform World success more w)
  unfolding perform
  perform-append success [] more w = refl
  perform-append success (t ∷ tasks) more w =
      ap (t.func success) (perform-append success tasks more w)

  -- A task that was added is done before those that were there, and the default tasks are done
  -- after all others: logging ends, then file systems are unmounted, the caches are flushed and the
  -- display is closed.
  perform_lem :
      (d : Defaults World) (t : HkTask World) (tasks : List (HkTask World)) (success : Bool)
      (w : World)
      → (perform World success (add World t tasks) w
          ≡ perform World success tasks (t.func success w))
        × (perform World success (add_preboot_defaults World d tasks) w
            ≡ d.close_lcd (
                d.sync (
                  d.umount success (
                    d.log_finalize
                      (perform World success (remove_preboot_defaults World tasks) w)))))
  unfolding add add_preboot_defaults add_first perform
  perform_lem d t tasks success w = (perform-append success tasks (t ∷ []) w, refl)

  -- How many tasks have a name.
  unfoldable pub count_name : Bytes → List (HkTask World) → ℕ
  count_name n [] = 0
  count_name n (t ∷ tasks) = (if equal t.name n then 1 else 0) + count_name n tasks

  count_name-kept :
      (n : Bytes) (tasks : List (HkTask World))
      → ((t : HkTask World) → t.name ≡ n → is_default World t ≡ false)
      → count_name n (remove_preboot_defaults World tasks) ≡ count_name n tasks
  unfolding count_name remove_preboot_defaults filter_out filter_tasks
  count_name-kept n [] h = refl
  count_name-kept n (t ∷ tasks) h = elim (Bool-cases (equal t.name n)) [
    | inl e ↦
        let stays = h t ((equal_iff t.name n).0 e) in
        rw (stays, e) (ap (λ x. 1 + x) (count_name-kept n tasks h))
    | inr e ↦ elim (Bool-cases (is_default World t)) [
      | inl f ↦ rw (f, e) (ground (arith, count_name-kept n tasks h))
      | inr f ↦ rw (f, e) (ground (arith, e, count_name-kept n tasks h))
    ]
  ]

  count_name-removed :
      (n : Bytes) (tasks : List (HkTask World))
      → ((t : HkTask World) → t.name ≡ n → is_default World t ≡ true)
      → count_name n (remove_preboot_defaults World tasks) ≡ 0
  unfolding count_name remove_preboot_defaults filter_out filter_tasks
  count_name-removed n [] h = refl
  count_name-removed n (t ∷ tasks) h = elim (Bool-cases (is_default World t)) [
    | inl f ↦ rw f (count_name-removed n tasks h)
    | inr f ↦ rw f (
        let other : (equal t.name n) ≡ false = elim (Bool-cases (equal t.name n)) [
          | inr g ↦ g
          | inl g ↦
              let listed = h t ((equal_iff t.name n).0 g) in absurd (ground (arith, f, listed))
        ] in
        ground (arith, other, count_name-removed n tasks h))
  ]

  -- However often the default tasks are added, unmounting, flushing and closing are there once each,
  -- but the end of logging is there once more each time.
  pub add_preboot_defaults_lem :
      (d : Defaults World) (tasks : List (HkTask World))
      → (count_name (codes "umount") (add_preboot_defaults World d tasks) ≡ 1)
        × (count_name (codes "sync") (add_preboot_defaults World d tasks) ≡ 1)
        × (count_name (codes "lcd") (add_preboot_defaults World d tasks) ≡ 1)
        × (count_name (codes "log.Finalize") (add_preboot_defaults World d tasks)
            ≡ 1 + count_name (codes "log.Finalize") tasks)
  unfolding add_preboot_defaults add_first count_name equal
  add_preboot_defaults_lem d tasks =
      let umounts = count_name-removed (codes "umount") tasks (λ t e. rw e refl) in
      let syncs = count_name-removed (codes "sync") tasks (λ t e. rw e refl) in
      let lcds = count_name-removed (codes "lcd") tasks (λ t e. rw e refl) in
      let finals = count_name-kept (codes "log.Finalize") tasks (λ t e. rw e refl) in
      (rw umounts refl, rw syncs refl, rw lcds refl, rw finals (omega arith))
