-- ===== src/Loader/Tests.antt =====
-- The theorems on template.c at a program of three pages with two arguments.
use yalnix_os_project.Base.{
  ℕ, ◌+◌, ◌%◌, ◌≤◌, ◌≡◌, ◌==◌, sym, ap, if◌then◌else◌, refl, true, false, Option, none, some, List,
  [], ◌∷◌, length, arith,
}
use yalnix_os_project.Base.Int.{pos, as_int}
use yalnix_os_project.Machine.{vmem_1_base}
use yalnix_os_project.Bytes.Strings.{AreTexts, span}
use yalnix_os_project.Loader.{
  LoadInfo, Placement, save_args, Files, World, plan, too_large, load_program, build_args,
}
use yalnix_os_project.Loader.Plan.{IsSane, Fits, plan-Fits}
use yalnix_os_project.Loader.Args.{save_args-StringsAt}
use yalnix_os_project.Loader.Block.{BuiltBlock, build_args-BuiltBlock}
use yalnix_os_project.Loader.Image.{IsLinked}
use yalnix_os_project.Loader.Outcome.{Loads, load_program-Loads}
use yalnix_os_project.Loader.Unchecked.{Overwrote, load_program_overwrites}

-- One page of text, one of data, and one of zeros.
abbrev three_pages : LoadInfo
three_pages = record {
  entry = 0x100000;
  t_faddr = 0;
  t_vaddr = 0x100000;
  t_npg = 1;
  t_end = 0x101000;
  id_faddr = 0x2000;
  id_vaddr = 0x102000;
  id_npg = 1;
  id_end = 0x102010;
  ud_vaddr = 0x104000;
  ud_npg = 1;
  ud_end = 0x105000;
}

-- "a" and "bc"
abbrev two_args : List (List ℕ)
two_args = (97 ∷ []) ∷ (98 ∷ 99 ∷ []) ∷ []

two_args-AreTexts : AreTexts two_args
two_args-AreTexts = (((λ e. omega arith), tt), (((λ e. omega arith), ((λ e. omega arith), tt)), tt))

abbrev whole_file : Files
whole_file = record {
  can_open = true;
  load_info = some three_pages;
  read_count = λ offset n. as_int n;
  content = λ i. i % 256;
  buffer = λ n. 0x8000;
}

abbrev idle_world : World
idle_world = record { bytes = λ a. 0; file_open = false; argbuf = none }

three_pages-IsSane : IsSane three_pages two_args
unfolding span
three_pages-IsSane = record {
  args_low = omega arith;
  counts_low = omega arith;
  address = omega arith;
}

three_pages-IsLinked : IsLinked three_pages
three_pages-IsLinked = record {
  text_start = omega arith;
  text_end = omega arith;
  data_aligned = omega arith;
  data_start = omega arith;
  data_end = omega arith;
  bss = omega arith;
  bss_end = omega arith;
}

three_pages_fit : too_large (plan three_pages two_args) ≡ false
unfolding too_large plan span
three_pages_fit = refl

buffer_low : 0x8000 + span two_args ≤ vmem_1_base
unfolding span
buffer_low = omega arith

info_of : Option LoadInfo → LoadInfo
info_of none = three_pages
info_of (some li) = li

known_info : (li : LoadInfo) → whole_file.load_info ≡ some li → IsSane li two_args × IsLinked li
unfolding info_of
known_info li e =
    let same : three_pages ≡ li = ap info_of e in
    rw (sym same) (three_pages-IsSane, three_pages-IsLinked)

load_program-Loads_example :
    Loads whole_file two_args idle_world (load_program whole_file two_args idle_world)
load_program-Loads_example =
    load_program-Loads whole_file two_args idle_world two_args-AreTexts buffer_low refl known_info

plan-Fits_example : Fits three_pages two_args (plan three_pages two_args)
plan-Fits_example = plan-Fits three_pages two_args three_pages-IsSane three_pages_fit

-- The buffer with the arguments in it.
abbrev buffered : ℕ → ℕ
buffered = save_args 0x8000 two_args (λ a. 0)

abbrev fitting : Placement
fitting = plan three_pages two_args

buffer_below : 0x8000 + span two_args ≤ fitting.cpp
unfolding plan span
buffer_below = omega arith

build_args-BuiltBlock_example :
    BuiltBlock buffered fitting.cpp fitting.cp two_args
      (build_args (span two_args) (length two_args) fitting 0x8000 buffered)
build_args-BuiltBlock_example =
    build_args-BuiltBlock three_pages two_args fitting
      (plan-Fits three_pages two_args three_pages-IsSane three_pages_fit) buffered 0x8000
      two_args-AreTexts (save_args-StringsAt 0x8000 two_args (λ a. 0)) buffer_below

-- The entry is in region 1, the text in region 0; nothing can be read behind the text.
abbrev stray : LoadInfo
stray = record three_pages { t_vaddr = 0x40000 }

abbrev stray_file : Files
stray_file = record whole_file {
  load_info = some stray;
  read_count = λ offset n. if offset == 0 then as_int n else pos 0;
}

stray-IsSane : IsSane stray two_args
unfolding span
stray-IsSane = record { args_low = omega arith; counts_low = omega arith; address = omega arith }

stray_fits : too_large (plan stray two_args) ≡ false
unfolding too_large plan span
stray_fits = refl

load_program_overwrites_example :
    Overwrote stray_file stray (load_program stray_file two_args idle_world)
load_program_overwrites_example =
    load_program_overwrites stray_file stray two_args idle_world refl refl (omega arith)
      stray-IsSane stray_fits (omega arith) refl refl
