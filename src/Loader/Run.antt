-- ===== src/Loader/Run.antt =====
-- Every outcome of LoadProgram.
use yalnix_os_project.Base.{
  ℕ, ◌+◌, ◌-◌, ◌*◌, ◌%◌, ◌^◌, ◌≤◌, ◌<◌, ◌≡◌, ◌∙◌, ◌⊎◌, inl, inr, refl, Bool-cases, true, false,
  Option, none, some, List, length, arith,
}
use yalnix_os_project.Base.Int.{ℤ, pos, negsuc, pos_part, as_int, eqb_ℤ}
use yalnix_os_project.Machine.{word, page_shift, vmem_1_base}
use yalnix_os_project.Bytes.Strings.{AreTexts, span}
use yalnix_os_project.Loader.{
  LoadInfo, Placement, Files, World, LoadStatus, loaded, killed, sub32, read_segment, save_args,
  build_args, finish_load,
}
use yalnix_os_project.Loader.Plan.{Fits}
use yalnix_os_project.Loader.Args.{save_args_other}
use yalnix_os_project.Loader.Block.{BuiltBlock, built_block}
use yalnix_os_project.Loader.Image.{
  IsLinked, Image, arrives, saved, with_text, with_data, with_bss, with_bss-kernel, with_bss-text,
  with_bss-data, with_bss-zeros, below_block, block_in_memory,
}

-- A segment that arrives is as long as it should be.
pub count_lem :
    (count : ℤ) (n : ℕ) → n < 2 ^ 31 → eqb_ℤ count (as_int (n % word)) ≡ true → pos_part count ≡ n
count_lem (pos c) n low h = ground arith
count_lem (negsuc c) n low h = ground arith

-- A read that fails or is short: the process is to be killed. The file is closed, but the buffer
-- stays allocated.
pub record Leaked (argbuf : ℕ) (args : List (List ℕ)) (old : ℕ → ℕ) (w : World) : Type 0 where
  pub closed : w.file_open ≡ false
  pub held : w.argbuf ≡ some argbuf

pub data Finished (files : Files) (li : LoadInfo) (args : List (List ℕ)) (l : Placement)
    (argbuf : ℕ) (old : ℕ → ℕ) : Option (LoadStatus × World) → Type 0 where
  short :
      (w : World)
      → (arrives files li.t_faddr li.t_npg ≡ false) ⊎ (arrives files li.id_faddr li.id_npg ≡ false)
      → Leaked argbuf args old w
      → Finished files li args l argbuf old (some (killed, w))
  complete :
      (w : World)
      → arrives files li.t_faddr li.t_npg ≡ true
      → arrives files li.id_faddr li.id_npg ≡ true
      → Image files li args l argbuf old w
      → Finished files li args l argbuf old (some (loaded, w))

module _ (files : Files) (li : LoadInfo) (args : List (List ℕ)) (l : Placement) (argbuf : ℕ)
    (f : Fits li args l) (k : IsLinked li) (texts : AreTexts args)
    (low : argbuf + span args ≤ vmem_1_base) (w : World) where
  abbrev start : World
  start = record w { bytes = save_args argbuf args w.bytes; argbuf = some argbuf }

  text_small : li.t_npg * 2 ^ page_shift < 2 ^ 31
  text_small =
      let a = k.text_end in
      let b = k.data_start in
      let c = k.data_end in
      let d = below_block files li args l argbuf w.bytes f k texts low in
      let e = f.words in let g = f.cp in omega arith

  data_small : li.id_npg * 2 ^ page_shift < 2 ^ 31
  data_small =
      let d = below_block files li args l argbuf w.bytes f k texts low in
      let e = f.words in let g = f.cp in omega arith

  block-Image :
      (r : Option (ℕ → ℕ))
      → arrives files li.t_faddr li.t_npg ≡ true
      → arrives files li.id_faddr li.id_npg ≡ true
      → BuiltBlock (with_bss files li args l argbuf w.bytes f k texts low) l.cpp l.cp args r
      → Finished files li args l argbuf w.bytes (elim r [
        | none ↦ none
        | some mem ↦ some (loaded, record w { bytes = mem; file_open = false; argbuf = none })
      ])
  unfolding saved
  block-Image r text more (built_block mem block below) =
      let d = below_block files li args l argbuf w.bytes f k texts low in
      let a = k.text_start in
      let b = k.text_end in
      let c = k.data_end in
      let e = k.bss_end in
      complete (record w { bytes = mem; file_open = false; argbuf = none }) text more
        (record {
          text = λ i lt.
              below (li.t_vaddr + i) (omega arith)
              ∙ with_bss-text files li args l argbuf w.bytes f k texts low i lt;
          data_bytes = λ i lt.
              below (li.id_vaddr + i) (omega arith)
              ∙ with_bss-data files li args l argbuf w.bytes f k texts low i lt;
          bss = λ i lo hi.
              below i (omega arith)
              ∙ with_bss-zeros files li args l argbuf w.bytes f k texts low i lo hi;
          block = block;
          kernel = λ i lt out.
              below i (omega arith)
              ∙ with_bss-kernel files li args l argbuf w.bytes f k texts low i lt
              ∙ save_args_other argbuf args w.bytes i out;
          closed = refl;
          freed = refl;
        })

  bss_length : sub32 li.ud_end li.id_end ≡ li.ud_end - li.id_end
  bss_length =
      let d = below_block files li args l argbuf w.bytes f k texts low in
      let a = k.bss in let b = k.bss_end in let e = f.words in let g = f.cp in omega arith

  pub finish_load-Finished :
      Finished files li args l argbuf w.bytes
        (finish_load files li (span args) (length args) argbuf l start)
  unfolding finish_load read_segment with_bss with_data with_text saved
  finish_load-Finished = elim (Bool-cases (arrives files li.t_faddr li.t_npg)) [
    | inr lost ↦ rw lost (short _ (inl lost) (record { closed = refl; held = refl }))
    | inl text ↦ elim (Bool-cases (arrives files li.id_faddr li.id_npg)) [
      | inr lost ↦ rw (text, lost) (short _ (inr lost) (record { closed = refl; held = refl }))
      | inl there ↦
          let t =
            count_lem (files.read_count li.t_faddr (li.t_npg * 2 ^ page_shift % word))
              (li.t_npg * 2 ^ page_shift) text_small text in
          let d =
            count_lem (files.read_count li.id_faddr (li.id_npg * 2 ^ page_shift % word))
              (li.id_npg * 2 ^ page_shift) data_small there in
          rw (text, there, t, d, bss_length)
            (block-Image
              (build_args (span args) (length args) l argbuf
                (with_bss files li args l argbuf w.bytes f k texts low))
              text there (block_in_memory files li args l argbuf w.bytes f k texts low))
    ]
  ]
