-- ===== src/Loader/Outcome.antt =====
-- LoadProgram as a whole: refused without a trace, killed, or loaded.
use yalnix_os_project.Base.{
  ℕ, ◌+◌, ◌≤◌, ◌≡◌, ◌∙◌, ap, inl, inr, refl, Bool-cases, true, false, ltb, ◌||◌, if◌then◌else◌,
  if_true, if_false, Option, none, some, List,
}
use yalnix_os_project.Machine.{vmem_1_base}
use yalnix_os_project.Bytes.Strings.{AreTexts, span}
use yalnix_os_project.Loader.{
  LoadInfo, Files, World, LoadStatus, failed, close_file, plan, too_large, load_image, load_program,
  open_info,
}
use yalnix_os_project.Loader.Plan.{IsSane, plan-Fits}
use yalnix_os_project.Loader.Image.{IsLinked}
use yalnix_os_project.Loader.Run.{Finished, finish_load-Finished}

accepted_info : List (List ℕ) → Option LoadInfo → Option LoadInfo
accepted_info args none = none
accepted_info args (some li) =
    if ltb li.entry vmem_1_base || too_large (plan li args) then none else some li

-- The file's description, if it passes every check: it opens, LoadInfo reads it, its entry is in
-- region 1 or above, and there is room.
unfoldable pub accepted : Files → List (List ℕ) → Option LoadInfo
unfolding accepted_info
accepted files args = if files.can_open then accepted_info args files.load_info else none

pub data Loads (files : Files) (args : List (List ℕ)) (w : World)
    : Option (LoadStatus × World) → Type 0 where
  refused :
      (w' : World)
      → accepted files args ≡ none
      → w' ≡ close_file w
      → Loads files args w (some (failed, w'))
  ran :
      (li : LoadInfo) (r : Option (LoadStatus × World))
      → accepted files args ≡ some li
      → Finished files li args (plan li args) (files.buffer (span args)) w.bytes r
      → Loads files args w r

module _ (files : Files) (args : List (List ℕ)) (w : World) (texts : AreTexts args)
    (low : files.buffer (span args) + span args ≤ vmem_1_base) where
  load_image-Loads :
      (li : LoadInfo)
      → IsSane li args
      → IsLinked li
      → accepted files args ≡ (if too_large (plan li args) then none else some li)
      → Loads files args w (load_image files li args (record w { file_open = true }))
  unfolding load_image
  load_image-Loads li sane linked e = elim (Bool-cases (too_large (plan li args))) [
    | inl large ↦ rw large (refused _ (e ∙ rw large refl) refl)
    | inr room ↦ rw room (
        ran li _ (e ∙ rw room refl) (
          finish_load-Finished files li args (plan li args) (files.buffer (span args))
            (plan-Fits li args sane room) linked texts low (record w { file_open = true })))
  ]

  open_info-Loads :
      (info : Option LoadInfo)
      → files.load_info ≡ info
      → ((li : LoadInfo) → info ≡ some li → IsSane li args × IsLinked li)
      → files.can_open ≡ true
      → Loads files args w (open_info files info args (record w { file_open = true }))
  unfolding open_info accepted accepted_info
  open_info-Loads none e known opened = refused _ (rw (opened, e) refl) refl
  open_info-Loads (some li) e known opened =
      let k = known li refl in
      elim (Bool-cases (ltb li.entry vmem_1_base)) [
        | inl low_entry ↦ rw low_entry (refused _ (rw (opened, e, low_entry) refl) refl)
        | inr fine ↦ rw fine (load_image-Loads li k.0 k.1 (rw (opened, e, fine) refl))
      ]

  -- For a file that is laid out as LoadInfo says and arguments below 512 megabytes, and a buffer
  -- in region 0, LoadProgram refuses exactly the files that fail a check, with the file closed and
  -- nothing changed; if a segment does not arrive in full, it asks for the process to be killed,
  -- with the file closed and the argument buffer still allocated; otherwise the text and data of
  -- the file, zeros and the argument block are in region 1, the kernel's memory is as it was but
  -- for the buffer, the file is closed and the buffer is free.
  pub load_program-Loads :
      w.file_open ≡ false
      → ((li : LoadInfo) → files.load_info ≡ some li → IsSane li args × IsLinked li)
      → Loads files args w (load_program files args w)
  unfolding load_program accepted
  load_program-Loads shut known =
      let run = open_info files files.load_info args (record w { file_open = true }) in
      elim (Bool-cases files.can_open) [
        | inl opened ↦
            rw (if_true files.can_open run (some (failed, w)) opened)
              (open_info-Loads files.load_info refl known opened)
        | inr closed ↦ rw (if_false files.can_open run (some (failed, w)) closed) (
            refused w (if_false files.can_open (accepted_info args files.load_info) none closed)
              (ap (λ b. record w { file_open = b }) shut))
      ]
