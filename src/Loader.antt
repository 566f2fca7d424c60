-- ===== src/Loader.antt =====
-- template.c: LoadProgram, the loader of a program into region 1. The places that the template
-- leaves blank (the page tables, the process's registers) are not there.
pub mod Plan
pub mod Args
pub mod Block
pub mod Image
pub mod Run
pub mod Outcome
pub mod Unchecked
mod Tests
use yalnix_os_project.Base.{
  ℕ, zero, suc, ◌+◌, ◌-◌, ◌*◌, ◌/◌, ◌%◌, ◌^◌, Bool, true, false, not, ltb, if◌then◌else◌, Option,
  none, some, List, [], ◌∷◌, length,
}
use yalnix_os_project.Base.Int.{ℤ, pos, pos_part, as_int, leb_ℤ, eqb_ℤ}
use yalnix_os_project.Machine.{
  null, word, page_size, page_shift, max_pt_len, vmem_1_base, vmem_1_limit, down_to_page,
}
use yalnix_os_project.Bytes.{store_word, fill, transfer, write_string, read_string}
use yalnix_os_project.Bytes.Strings.{span}

-- `struct load_info`
pub record LoadInfo : Type 0 where
  pub entry : ℕ
  pub t_faddr : ℕ
  pub t_vaddr : ℕ
  pub t_npg : ℕ
  pub t_end : ℕ
  pub id_faddr : ℕ
  pub id_vaddr : ℕ
  pub id_npg : ℕ
  pub id_end : ℕ
  pub ud_vaddr : ℕ
  pub ud_npg : ℕ
  pub ud_end : ℕ

-- The executable, as `open`, `LoadInfo` and `read` show it; `none` is a failure. `read_count` is
-- what `read` returns at an offset for a length. `buffer` is the block that `malloc` gives.
pub record Files : Type 0 where
  pub can_open : Bool
  pub load_info : Option LoadInfo
  pub read_count : ℕ → ℕ → ℤ
  pub content : ℕ → ℕ
  pub buffer : ℕ → ℕ

-- Memory, whether the file is open, and the argument buffer while it is allocated.
pub record World : Type 0 where
  pub bytes : ℕ → ℕ
  pub file_open : Bool
  pub argbuf : Option ℕ

pub data LoadStatus : Type 0 where
  loaded failed killed : LoadStatus

abbrev pub initial_stack_frame_size : ℕ
initial_stack_frame_size = 0

abbrev pub post_argv_null_space : ℕ
post_argv_null_space = 0x20

abbrev pub sub32 : ℕ → ℕ → ℕ
sub32 a b = (a + word - b) % word

-- `n >> PAGESHIFT` on a signed word.
abbrev pub shift_right : ℕ → ℕ
shift_right n =
    if ltb n (2 ^ 31)
    then n / 2 ^ page_shift
    else word - (word - n + (2 ^ page_shift - 1)) / 2 ^ page_shift

-- `text_pg1` is only used in the blank places.
pub record Placement : Type 0 where
  pub data_pg1 : ℕ
  pub data_npg : ℕ
  pub cp : ℕ
  pub cpp : ℕ
  pub sp : ℕ
  pub stack_npg : ℕ

-- From the file's counts and the arguments to pages and addresses, on 32-bit words.
unfoldable pub plan : LoadInfo → List (List ℕ) → Placement
unfolding down_to_page
plan li args =
    let cp = sub32 vmem_1_limit (span args % word) in
    let cpp = sub32 cp ((length args + 3 + post_argv_null_space) * 4 % word) / 8 * 8 in
    let sp = sub32 cpp initial_stack_frame_size in
    record {
      data_pg1 = sub32 li.id_vaddr vmem_1_base / 2 ^ page_shift;
      data_npg = (li.id_npg + li.ud_npg) % word;
      cp = cp;
      cpp = cpp;
      sp = sp;
      stack_npg = shift_right (sub32 vmem_1_limit (down_to_page sp));
    }

-- `stack_npg + data_pg1 + data_npg >= MAX_PT_LEN`
unfoldable pub too_large : Placement → Bool
too_large l = leb_ℤ (pos max_pt_len) (as_int ((l.stack_npg + l.data_pg1 + l.data_npg) % word))

-- The arguments, one behind the other from `a` on.
unfoldable pub save_args : ℕ → List (List ℕ) → (ℕ → ℕ) → ℕ → ℕ
save_args a [] mem = mem
save_args a (s ∷ ss) mem = save_args (a + length s + 1) ss (write_string a s mem)

-- One round of the last loop, with the string that `cp2` points to; the string is shorter than
-- the argument buffer, whose size is the fuel.
unfoldable pub argv_loop : ℕ → ℕ → ℕ → ℕ → ℕ → (ℕ → ℕ) → Option (ℕ × (ℕ → ℕ))
argv_loop fuel zero cpp cp cp2 mem = some (cpp, mem)
argv_loop fuel (suc rounds) cpp cp cp2 mem = elim (read_string fuel cp2 mem) [
  | none ↦ none
  | some s ↦
      argv_loop fuel rounds (cpp + 4) (cp + length s + 1) (cp2 + length s + 1)
        (write_string cp s (store_word cpp cp mem))
]

-- `argc`, `argv` and the two null pointers.
unfoldable pub build_args : ℕ → ℕ → Placement → ℕ → (ℕ → ℕ) → Option (ℕ → ℕ)
build_args size argcount l argbuf mem =
    let cleared = fill l.cpp 0 (vmem_1_limit - l.cpp) mem in
    elim (argv_loop size argcount (l.cpp + 4) l.cp argbuf (store_word l.cpp argcount cleared)) [
      | none ↦ none
      | some (cpp, mem') ↦ some (store_word (cpp + 4) null (store_word cpp null mem'))
    ]

-- `lseek` and `read`, and whether all of the segment arrived.
unfoldable pub read_segment : Files → ℕ → ℕ → ℕ → World → Bool × World
read_segment files offset addr npg w =
    let segment_size = npg * 2 ^ page_shift % word in
    let count = files.read_count offset segment_size in
    (
      eqb_ℤ count (as_int segment_size),
      record w { bytes = transfer addr (pos_part count) offset files.content w.bytes },
    )

abbrev pub close_file : World → World
close_file w = record w { file_open = false }

-- From the two reads on; the buffer is freed at the end.
unfoldable pub finish_load :
    Files → LoadInfo → ℕ → ℕ → ℕ → Placement → World → Option (LoadStatus × World)
finish_load files li size argcount argbuf l w =
    let (text_read, w1) = read_segment files li.t_faddr li.t_vaddr li.t_npg w in
    if not text_read
    then some (killed, close_file w1)
    else let (data_read, w2) = read_segment files li.id_faddr li.id_vaddr li.id_npg w1 in
      if not data_read
      then some (killed, close_file w2)
      else let w3 = close_file w2 in
        let zeroed = fill li.id_end 0 (sub32 li.ud_end li.id_end) w3.bytes in
        elim (build_args size argcount l argbuf zeroed) [
          | none ↦ none
          | some mem ↦ some (loaded, record w3 { bytes = mem; argbuf = none })
        ]

-- With a file that is open and in order.
unfoldable pub load_image : Files → LoadInfo → List (List ℕ) → World → Option (LoadStatus × World)
load_image files li args w =
    let l = plan li args in
    if too_large l
    then some (failed, close_file w)
    else let argbuf = files.buffer (span args) in
      finish_load files li (span args) (length args) argbuf l
        (record w { bytes = save_args argbuf args w.bytes; argbuf = some argbuf })

unfoldable pub open_info :
    Files → Option LoadInfo → List (List ℕ) → World → Option (LoadStatus × World)
open_info files none args w = some (failed, close_file w)
open_info files (some li) args w =
    if ltb li.entry vmem_1_base then some (failed, close_file w) else load_image files li args w

unfoldable pub load_program : Files → List (List ℕ) → World → Option (LoadStatus × World)
unfolding open_info
load_program files args w =
    if files.can_open
    then open_info files files.load_info args (record w { file_open = true })
    else some (failed, w)
