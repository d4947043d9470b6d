-- ===== src/Runtime/Cleanup/Gone.antt =====
-- When the cleanup of the test copy reports no error.
use safepatch.Base.{Bool, true, false, Option, none, some, ◌≡◌, inl, inr, Bool-cases, Option-cases}
use safepatch.Text.{Text}
use safepatch.Runtime.Cleanup.{
  Disposable, OsError, Cleaner, Site, report, after_removal, fall_back, wipe_step, remove_step,
  remove_disposable_test_copy,
}

-- Whether there is a text.
abbrev pub is_reported : Option Text → Bool
is_reported none = false
is_reported (some why) = true

module _ (cleaner : Cleaner) (site : Site) where
  report_exact :
      (wipe_error : Option Text) (r : Disposable × Option OsError)
      → is_reported (report cleaner site wipe_error r).1
        ≡ (report cleaner site wipe_error r).0.parent_there
  unfolding report
  report_exact wipe_error (d, e) = elim (Bool-cases d.parent_there) [
    | inr gone ↦ simp (gone)
    | inl there ↦ elim (Option-cases e) [
      | inl calm ↦ simp (there, calm)
      | inr (why, raised) ↦ simp (there, raised)
    ]
  ]

  fall_back_exact :
      (d : Disposable)
      → is_reported (fall_back cleaner site d).1 ≡ (fall_back cleaner site d).0.parent_there
  unfolding fall_back
  fall_back_exact d =
      report_exact (wipe_step cleaner site d).1
        (remove_step cleaner site (wipe_step cleaner site d).0)

  after_removal_exact :
      (r : Disposable × Bool)
      → is_reported (after_removal cleaner site r).1 ≡ (after_removal cleaner site r).0.parent_there
  unfolding after_removal
  after_removal_exact (d, false) = fall_back_exact d
  after_removal_exact (d, true) = elim (Bool-cases d.parent_there) [
    | inr gone ↦ simp (gone)
    | inl there ↦ simp (there, fall_back_exact d)
  ]

  -- The cleanup returns an error exactly if the directory of the test copy is still there
  -- afterwards, whatever the disk and docker do.
  pub remove_disposable_test_copy_exact :
      (d : Disposable)
      → is_reported (remove_disposable_test_copy cleaner site d).1
        ≡ (remove_disposable_test_copy cleaner site d).0.parent_there
  unfolding remove_disposable_test_copy
  remove_disposable_test_copy_exact d = elim (Bool-cases d.parent_there) [
    | inr gone ↦ simp (gone)
    | inl there ↦ simp (there, after_removal_exact (cleaner.remove_parent d))
  ]
