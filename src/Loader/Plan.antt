-- ===== src/Loader/Plan.antt =====
-- What the size check of LoadProgram guarantees.
use yalnix_os_project.Base.{
  ℕ, ◌+◌, ◌-◌, ◌*◌, ◌/◌, ◌%◌, ◌^◌, ◌≤◌, ◌<◌, ◌≡◌, ◌⊎◌, inl, inr, refl, false, ltb, if◌then◌else◌,
  List, length, arith,
}
use yalnix_os_project.Base.Int.{pos, as_int, leb_ℤ}
use yalnix_os_project.Machine.{word, page_size, max_pt_len, vmem_1_base, vmem_1_limit, down_to_page}
use yalnix_os_project.Bytes.Strings.{span}
use yalnix_os_project.Loader.{LoadInfo, Placement, sub32, shift_right, plan, too_large}

-- What the argument block takes: the strings and the words below them.
abbrev pub block_size : List (List ℕ) → ℕ
block_size args = span args + (length args + 35) * 4

-- Arguments of less than 512 megabytes, and page counts of a file with 32-bit addresses.
pub record IsSane (li : LoadInfo) (args : List (List ℕ)) : Type 0 where
  pub args_low : block_size args < 2 ^ 29
  pub counts_low : li.id_npg + li.ud_npg < 2 ^ 21
  pub address : li.id_vaddr < word

-- The words are below the strings, on a double-word boundary, inside the pages of the stack; the
-- data begins in region 1, and there is a page between its end and the stack.
pub record Fits (li : LoadInfo) (args : List (List ℕ)) (l : Placement) : Type 0 where
  pub cp : l.cp + span args ≡ vmem_1_limit
  pub words : l.cpp + (length args + 35) * 4 ≤ l.cp
  pub aligned : l.cpp % 8 ≡ 0
  pub in_stack : vmem_1_limit ≤ l.cpp + l.stack_npg * page_size
  pub data_start : li.id_vaddr ≡ vmem_1_base + l.data_pg1 * page_size + li.id_vaddr % page_size
  pub gap : l.data_pg1 + li.id_npg + li.ud_npg + l.stack_npg + 1 ≤ max_pt_len
  pub sp : l.sp ≡ l.cpp

cp_lem :
    (s : ℕ)
    → s < 2 ^ 29
    → sub32 vmem_1_limit (s % word)
      ≡ (if ltb vmem_1_limit s then word + vmem_1_limit - s else vmem_1_limit - s)
cp_lem s low = ground arith

stack_pages :
    (x : ℕ)
    → x < word
    → (x ≤ vmem_1_limit) ⊎ (word - 2 ^ 30 ≤ x)
    → shift_right (sub32 vmem_1_limit (x / page_size * page_size)) < 128
    → (x ≤ vmem_1_limit)
      × (vmem_1_limit
          ≤ x + shift_right (sub32 vmem_1_limit (x / page_size * page_size)) * page_size)
stack_pages x low (inl fits) few = (fits, ground arith)
stack_pages x low (inr wrapped) few = absurd (ground arith)

-- The words of the block: `n` of them below `cp`, on a double-word boundary.
cpp_lem :
    (s n : ℕ)
    → s + n * 4 < 2 ^ 29
    → s + n * 4 ≤ vmem_1_limit
    → (sub32 (sub32 vmem_1_limit (s % word)) (n * 4 % word) / 8 * 8 + n * 4 + s ≤ vmem_1_limit)
cpp_lem s n low fits = omega arith

cpp_range :
    (s n : ℕ)
    → s + n * 4 < 2 ^ 29
    → (s + n * 4 ≤ vmem_1_limit)
      ⊎ (word - 2 ^ 30 ≤ sub32 (sub32 vmem_1_limit (s % word)) (n * 4 % word) / 8 * 8)
cpp_range s n low = ground arith

few_pages :
    (a b c : ℕ)
    → a < 2 ^ 20
    → b < 2 ^ 20
    → c < 2 ^ 21
    → leb_ℤ (pos max_pt_len) (as_int ((a + b + c) % word)) ≡ false
    → a + b + c < max_pt_len
few_pages a b c la lb lc h = ground arith

stack_low :
    (x : ℕ)
    → x < word
    → (x ≤ vmem_1_limit) ⊎ (word - 2 ^ 30 ≤ x)
    → shift_right (sub32 vmem_1_limit (x / page_size * page_size)) < 2 ^ 20
stack_low x low (inl fits) = ground arith
stack_low x low (inr wrapped) = ground arith

module _ (li : LoadInfo) (args : List (List ℕ)) (o : IsSane li args) where
  low_cpp : ((plan li args).cpp ≤ vmem_1_limit) ⊎ (word - 2 ^ 30 ≤ (plan li args).cpp)
  unfolding plan
  low_cpp =
      let a = o.args_low in
      elim (cpp_range (span args) (length args + 35) a) [
        | inl fits ↦ inl (let c = cpp_lem (span args) (length args + 35) a fits in omega arith)
        | inr wrapped ↦ inr (omega (arith, wrapped))
      ]

  sp-cpp : (plan li args).sp ≡ (plan li args).cpp
  unfolding plan
  sp-cpp = omega arith

  cpp_word : (plan li args).cpp < word
  unfolding plan
  cpp_word = omega arith

  low_sp : ((plan li args).sp ≤ vmem_1_limit) ⊎ (word - 2 ^ 30 ≤ (plan li args).sp)
  low_sp = elim low_cpp [
    | inl fits ↦ inl (omega (arith, sp-cpp))
    | inr wrapped ↦ inr (omega (arith, sp-cpp, wrapped))
  ]

  stack_npg_lem :
      (plan li args).stack_npg
      ≡ shift_right (sub32 vmem_1_limit ((plan li args).sp / page_size * page_size))
  unfolding plan down_to_page
  stack_npg_lem = refl

  data_pages :
      ((plan li args).data_npg ≡ li.id_npg + li.ud_npg)
      × ((plan li args).data_pg1 ≡ sub32 li.id_vaddr vmem_1_base / page_size)
  unfolding plan
  data_pages = let c = o.counts_low in (omega arith, omega arith)

  total_pages :
      too_large (plan li args) ≡ false
      → (plan li args).stack_npg + (plan li args).data_pg1 + (plan li args).data_npg < max_pt_len
  unfolding too_large
  total_pages small =
      let c = o.counts_low in
      few_pages (plan li args).stack_npg (plan li args).data_pg1 (plan li args).data_npg
        (rw stack_npg_lem (stack_low (plan li args).sp (omega (arith, sp-cpp, cpp_word)) low_sp))
        (omega (arith, data_pages.1)) (omega (arith, data_pages.0)) small

  words_fit :
      (plan li args).cpp ≤ vmem_1_limit
      → ((plan li args).cp + span args ≡ vmem_1_limit)
        × ((plan li args).cpp + (length args + 35) * 4 ≤ (plan li args).cp)
        × ((plan li args).cpp % 8 ≡ 0)
  unfolding plan
  words_fit low = let a = o.args_low in (omega arith, omega arith, omega arith)

  -- For arguments below 512 megabytes and page counts below 2^21, a load that passes the size
  -- check keeps the argument block, on a double-word boundary, inside the pages of the stack and
  -- leaves a page between them and the data, which begins in region 1; no step of the arithmetic
  -- on words has wrapped.
  pub plan-Fits : too_large (plan li args) ≡ false → Fits li args (plan li args)
  plan-Fits small =
      let total = total_pages small in
      let stack =
        stack_pages (plan li args).sp (omega (arith, sp-cpp, cpp_word)) low_sp
          (let t = stack_npg_lem in omega arith) in
      let t = stack_npg_lem in
      let same = sp-cpp in
      let w = words_fit (omega (arith, stack.0)) in
      let a = o.address in
      record {
        cp = w.0;
        words = w.1;
        aligned = w.2;
        in_stack = omega (arith, stack.1);
        data_start = omega (arith, data_pages.1);
        gap = omega (arith, data_pages.0);
        sp = same;
      }
