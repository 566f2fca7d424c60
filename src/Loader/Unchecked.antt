-- ===== src/Loader/Unchecked.antt =====
-- What LoadProgram does not check: where the text goes.
use yalnix_os_project.Base.{
  ℕ, ◌+◌, ◌-◌, ◌*◌, ◌%◌, ◌^◌, ◌≤◌, ◌<◌, ◌≡◌, ◌∙◌, ap, inl, true, false, ltb, if_true, Option, some,
  List, arith,
}
use yalnix_os_project.Base.Int.{pos_part}
use yalnix_os_project.Machine.{page_size, page_shift, word, vmem_1_base}
use yalnix_os_project.Bytes.{transfer}
use yalnix_os_project.Bytes.Words.{transfer_inside, transfer_beyond}
use yalnix_os_project.Bytes.Strings.{span}
use yalnix_os_project.Loader.{
  LoadInfo, Files, World, LoadStatus, failed, killed, plan, too_large, load_image, finish_load,
  read_segment, save_args, load_program, open_info,
}
use yalnix_os_project.Loader.Plan.{IsSane, plan-Fits}
use yalnix_os_project.Loader.Image.{arrives}
use yalnix_os_project.Loader.Run.{count_lem}

-- The process is to be killed, and its text is in memory.
pub data Overwrote (files : Files) (li : LoadInfo) : Option (LoadStatus × World) → Type 0 where
  overwrote :
      (w : World)
      → ((i : ℕ)
          → i < li.t_npg * page_size
          → w.bytes (li.t_vaddr + i) ≡ files.content (li.t_faddr + i))
      → Overwrote files li (some (killed, w))

-- For a file that passes the checks, with its entry in region 1 or above and its text below region
-- 1, whose text can be read in full and whose data cannot, LoadProgram answers that the process is
-- to be killed, and has read the text over the kernel's memory.
pub load_program_overwrites :
    (files : Files) (li : LoadInfo) (args : List (List ℕ)) (w : World)
    → files.can_open ≡ true
    → files.load_info ≡ some li
    → vmem_1_base ≤ li.entry
    → IsSane li args
    → too_large (plan li args) ≡ false
    → li.t_vaddr + li.t_npg * page_size ≤ vmem_1_base
    → arrives files li.t_faddr li.t_npg ≡ true
    → arrives files li.id_faddr li.id_npg ≡ false
    → Overwrote files li (load_program files args w)
unfolding load_program open_info load_image finish_load read_segment
load_program_overwrites files li args w opened info entry sane room below text lost =
    let f = plan-Fits li args sane room in
    let data_start = f.data_start in
    let fine : ltb li.entry vmem_1_base ≡ false = ground arith in
    let argbuf = files.buffer (span args) in
    let saved = save_args argbuf args w.bytes in
    let n = li.t_npg * 2 ^ page_shift in
    let with_text = transfer li.t_vaddr n li.t_faddr files.content saved in
    let t = count_lem (files.read_count li.t_faddr (n % word)) n (omega arith) text in
    let id_count = pos_part (files.read_count li.id_faddr (li.id_npg * 2 ^ page_shift % word)) in
    rw
      (
        if_true files.can_open
            (open_info files files.load_info args (record w { file_open = true }))
            (some (failed, w)) opened,
        info,
        fine,
        room,
        text,
        lost,
        t,
      )
      (overwrote _ (λ i lt.
        let at : li.t_faddr + (li.t_vaddr + i - li.t_vaddr) ≡ li.t_faddr + i = omega arith in
        transfer_beyond li.id_vaddr id_count li.id_faddr (li.t_vaddr + i) files.content with_text
          (inl (omega arith))
        ∙ transfer_inside li.t_vaddr n li.t_faddr (li.t_vaddr + i) files.content saved (omega arith)
            (omega arith)
        ∙ ap files.content at))
