-- ===== src/Loader/Image.antt =====
-- The end of LoadProgram: the program in region 1, or a process to kill.
use yalnix_os_project.Base.{
  ℕ, ◌+◌, ◌-◌, ◌*◌, ◌%◌, ◌^◌, ◌≤◌, ◌<◌, ◌≡◌, ◌∙◌, ap, inl, Bool, false, none, List, length, arith,
}
use yalnix_os_project.Base.Int.{as_int, eqb_ℤ}
use yalnix_os_project.Machine.{word, page_size, page_shift, vmem_1_base}
use yalnix_os_project.Bytes.{fill, transfer}
use yalnix_os_project.Bytes.Words.{
  Outside, fill_inside, fill_beyond, transfer_inside, transfer_beyond,
}
use yalnix_os_project.Bytes.Strings.{AreTexts, StringsAt-frame, span}
use yalnix_os_project.Loader.{LoadInfo, Placement, Files, World, save_args, build_args}
use yalnix_os_project.Loader.Plan.{Fits}
use yalnix_os_project.Loader.Args.{save_args-StringsAt}
use yalnix_os_project.Loader.Block.{ArgBlock, BuiltBlock, build_args-BuiltBlock}

-- What LoadInfo says of a file: the text in region 1, behind it the data from a page's start, and
-- behind that the data that is not in the file.
pub record IsLinked (li : LoadInfo) : Type 0 where
  pub text_start : vmem_1_base ≤ li.t_vaddr
  pub text_end : li.t_vaddr + li.t_npg * page_size ≤ li.id_vaddr
  pub data_aligned : li.id_vaddr % page_size ≡ 0
  pub data_start : li.id_vaddr ≤ li.id_end
  pub data_end : li.id_end ≤ li.id_vaddr + li.id_npg * page_size
  pub bss : li.id_end ≤ li.ud_end
  pub bss_end : li.ud_end ≤ li.id_vaddr + (li.id_npg + li.ud_npg) * page_size

-- Whether all bytes of a segment can be read.
abbrev pub arrives : Files → ℕ → ℕ → Bool
arrives files offset npg =
    eqb_ℤ (files.read_count offset (npg * 2 ^ page_shift % word))
      (as_int (npg * 2 ^ page_shift % word))

-- The new program: its text and data as in the file, zeros behind them, its arguments on the
-- stack; the kernel's memory as it was but for the buffer, which is free again.
pub record Image (files : Files) (li : LoadInfo) (args : List (List ℕ)) (l : Placement) (argbuf : ℕ)
    (old : ℕ → ℕ) (w : World) : Type 0 where
  pub text :
      (i : ℕ) → i < li.t_npg * page_size → w.bytes (li.t_vaddr + i) ≡ files.content (li.t_faddr + i)
  pub data_bytes :
      (i : ℕ)
      → li.id_vaddr + i < li.id_end
      → w.bytes (li.id_vaddr + i) ≡ files.content (li.id_faddr + i)
  pub bss : (i : ℕ) → li.id_end ≤ i → i < li.ud_end → w.bytes i ≡ 0
  pub block : ArgBlock w.bytes l.cpp l.cp args
  pub kernel : (i : ℕ) → i < vmem_1_base → Outside argbuf (argbuf + span args) i → w.bytes i ≡ old i
  pub closed : w.file_open ≡ false
  pub freed : w.argbuf ≡ none

module _ (files : Files) (li : LoadInfo) (args : List (List ℕ)) (l : Placement) (argbuf : ℕ)
    (old : ℕ → ℕ) (f : Fits li args l) (k : IsLinked li) (texts : AreTexts args)
    (low : argbuf + span args ≤ vmem_1_base) where
  unfoldable pub saved : ℕ → ℕ
  saved = save_args argbuf args old

  unfoldable pub with_text : ℕ → ℕ
  unfolding saved
  with_text = transfer li.t_vaddr (li.t_npg * 2 ^ page_shift) li.t_faddr files.content saved

  unfoldable pub with_data : ℕ → ℕ
  unfolding with_text
  with_data = transfer li.id_vaddr (li.id_npg * 2 ^ page_shift) li.id_faddr files.content with_text

  unfoldable pub with_bss : ℕ → ℕ
  unfolding with_data
  with_bss = fill li.id_end 0 (li.ud_end - li.id_end) with_data

  -- Region 0 holds the buffer and the kernel's memory during all that.
  pub with_bss-kernel : (i : ℕ) → i < vmem_1_base → with_bss i ≡ saved i
  unfolding with_bss with_data with_text
  with_bss-kernel i lt =
      let a = k.text_start in
      let b = k.text_end in
      let c = k.data_start in
      fill_beyond li.id_end 0 (li.ud_end - li.id_end) i with_data (inl (omega arith))
      ∙ transfer_beyond li.id_vaddr (li.id_npg * 2 ^ page_shift) li.id_faddr i files.content
          with_text (inl (omega arith))
      ∙ transfer_beyond li.t_vaddr (li.t_npg * 2 ^ page_shift) li.t_faddr i files.content saved
          (inl (omega arith))

  pub with_bss-text :
      (i : ℕ)
      → i < li.t_npg * page_size
      → with_bss (li.t_vaddr + i) ≡ files.content (li.t_faddr + i)
  unfolding with_bss with_data with_text
  with_bss-text i lt =
      let b = k.text_end in
      let c = k.data_start in
      let at : li.t_faddr + (li.t_vaddr + i - li.t_vaddr) ≡ li.t_faddr + i = omega arith in
      fill_beyond li.id_end 0 (li.ud_end - li.id_end) (li.t_vaddr + i) with_data (inl (omega arith))
      ∙ transfer_beyond li.id_vaddr (li.id_npg * 2 ^ page_shift) li.id_faddr (li.t_vaddr + i)
          files.content with_text (inl (omega arith))
      ∙ transfer_inside li.t_vaddr (li.t_npg * 2 ^ page_shift) li.t_faddr (li.t_vaddr + i)
          files.content saved (omega arith) (omega arith)
      ∙ ap files.content at

  pub with_bss-data :
      (i : ℕ)
      → li.id_vaddr + i < li.id_end
      → with_bss (li.id_vaddr + i) ≡ files.content (li.id_faddr + i)
  unfolding with_bss with_data
  with_bss-data i lt =
      let c = k.data_end in
      let at : li.id_faddr + (li.id_vaddr + i - li.id_vaddr) ≡ li.id_faddr + i = omega arith in
      fill_beyond li.id_end 0 (li.ud_end - li.id_end) (li.id_vaddr + i) with_data
        (inl (omega arith))
      ∙ transfer_inside li.id_vaddr (li.id_npg * 2 ^ page_shift) li.id_faddr (li.id_vaddr + i)
          files.content with_text (omega arith) (omega arith)
      ∙ ap files.content at

  pub with_bss-zeros : (i : ℕ) → li.id_end ≤ i → i < li.ud_end → with_bss i ≡ 0
  unfolding with_bss
  with_bss-zeros i lo hi =
      fill_inside li.id_end 0 (li.ud_end - li.id_end) i with_data lo (omega arith)

  -- All of the program lies below the argument block.
  pub below_block : li.id_vaddr + (li.id_npg + li.ud_npg) * page_size < l.cpp
  below_block =
      let a = f.data_start in
      let b = f.gap in let c = f.in_stack in let d = k.data_aligned in omega arith

  pub block_in_memory :
      BuiltBlock with_bss l.cpp l.cp args (build_args (span args) (length args) l argbuf with_bss)
  unfolding saved
  block_in_memory =
      let b = below_block in
      let a = k.text_start in
      let c = k.text_end in
      build_args-BuiltBlock li args l f with_bss argbuf texts
        (StringsAt-frame saved with_bss argbuf args (λ i lo hi. with_bss-kernel i (omega arith))
          (save_args-StringsAt argbuf args old))
        (omega arith)
