-- ===== src/Loader/Block.antt =====
-- The argument block that the new program finds on its stack.
use yalnix_os_project.Base.{
  ℕ, ◌+◌, ◌-◌, ◌*◌, ◌≤◌, ◌<◌, ◌≡◌, ◌∙◌, sym, ap, inl, inr, Option, none, some, List, length, arith,
}
use yalnix_os_project.Machine.{null, vmem_1_limit}
use yalnix_os_project.Bytes.{store_word, load_word, fill}
use yalnix_os_project.Bytes.Words.{
  Outside, load_word-store_word, store_word_other, load_word_same, fill_inside, fill_beyond,
}
use yalnix_os_project.Bytes.Strings.{AreTexts, StringsAt, StringsAt-frame, span}
use yalnix_os_project.Loader.{LoadInfo, Placement, argv_loop, build_args}
use yalnix_os_project.Loader.Plan.{Fits}
use yalnix_os_project.Loader.Args.{PointersAt, PointersAt-frame, Built, built, argv_loop-Built}

-- From `cpp` up: the number of arguments, a pointer to each of them, a null pointer for the end of
-- `argv`, one for the empty environment, zeros, and from `cp` on the arguments themselves.
pub record ArgBlock (mem : ℕ → ℕ) (cpp cp : ℕ) (args : List (List ℕ)) : Type 0 where
  pub argc : load_word cpp mem ≡ length args
  pub argv : PointersAt mem (cpp + 4) cp args
  pub argv_end : load_word (cpp + 4 + length args * 4) mem ≡ null
  pub envp_end : load_word (cpp + 8 + length args * 4) mem ≡ null
  pub zeros : (i : ℕ) → cpp + 12 + length args * 4 ≤ i → i < cp → mem i ≡ 0
  pub strings : StringsAt mem cp args

pub data BuiltBlock (mem : ℕ → ℕ) (cpp cp : ℕ) (args : List (List ℕ))
    : Option (ℕ → ℕ) → Type 0 where
  built_block :
      (mem' : ℕ → ℕ)
      → ArgBlock mem' cpp cp args
      → ((i : ℕ) → i < cpp → mem' i ≡ mem i)
      → BuiltBlock mem cpp cp args (some mem')

module _ (li : LoadInfo) (args : List (List ℕ)) (l : Placement) (f : Fits li args l)
    (mem : ℕ → ℕ) where
  cleared : ℕ → ℕ
  cleared = fill l.cpp 0 (vmem_1_limit - l.cpp) mem

  with_argc : ℕ → ℕ
  unfolding cleared
  with_argc = store_word l.cpp (length args) cleared

  with_argc-below : (i : ℕ) → i < l.cpp → with_argc i ≡ mem i
  unfolding with_argc cleared
  with_argc-below i lt =
      store_word_other l.cpp (length args) i cleared (inl lt)
      ∙ fill_beyond l.cpp 0 (vmem_1_limit - l.cpp) i mem (inl lt)

  with_argc-zeros : (i : ℕ) → l.cpp + 4 ≤ i → i < vmem_1_limit → with_argc i ≡ 0
  unfolding with_argc cleared
  with_argc-zeros i lo hi =
      store_word_other l.cpp (length args) i cleared (inr lo)
      ∙ fill_inside l.cpp 0 (vmem_1_limit - l.cpp) i mem (omega arith) (omega arith)

  -- What the loop leaves, with the two null pointers behind it.
  finished-block :
      (end : ℕ) (mem' : ℕ → ℕ)
      → end ≡ l.cpp + 4 + length args * 4
      → PointersAt mem' (l.cpp + 4) l.cp args
      → StringsAt mem' l.cp args
      → ((i : ℕ)
          → Outside (l.cpp + 4) (l.cpp + 4 + length args * 4) i
          → Outside l.cp (l.cp + span args) i
          → mem' i ≡ with_argc i)
      → BuiltBlock mem l.cpp l.cp args (some (store_word (end + 4) null (store_word end null mem')))
  unfolding with_argc
  finished-block end mem' at pointers strings same =
      let words = f.words in
      let top = f.cp in
      let m1 = store_word end null mem' in
      let m2 = store_word (end + 4) null m1 in
      let kept : (i : ℕ) → Outside end (end + 8) i → m2 i ≡ mem' i = λ i out.
        store_word_other (end + 4) null i m1 (omega (arith, out))
        ∙ store_word_other end null i mem' (omega (arith, out)) in
      let next : l.cpp + 8 + length args * 4 ≡ end + 4 = omega arith in
      built_block m2
        (record {
          argc =
              load_word_same l.cpp with_argc m2 (λ i lo hi.
                kept i (inl (omega arith)) ∙ same i (inl (omega arith)) (inl (omega arith)))
              ∙ load_word-store_word l.cpp (length args) cleared (omega arith);
          argv =
              PointersAt-frame mem' m2 (l.cpp + 4) l.cp args (λ i lo hi. kept i (inl (omega arith)))
                pointers;
          argv_end =
              ap (λ x. load_word x m2) (sym at)
              ∙ load_word_same end m1 m2
                  (λ i lo hi. store_word_other (end + 4) null i m1 (inl (omega arith)))
              ∙ load_word-store_word end null mem' (omega arith);
          envp_end =
              ap (λ x. load_word x m2) next ∙ load_word-store_word (end + 4) null m1 (omega arith);
          zeros = λ i lo hi.
              kept i (inr (omega arith))
              ∙ same i (inr (omega arith)) (inl (omega arith))
              ∙ with_argc-zeros i (omega arith) (omega arith);
          strings =
              StringsAt-frame mem' m2 l.cp args (λ i lo hi. kept i (inr (omega arith))) strings;
        })
        (λ i lt.
          kept i (inl (omega arith))
          ∙ same i (inl (omega arith)) (inl (omega arith))
          ∙ with_argc-below i lt)

  -- After the loop.
  end_of_loop :
      (r : Option (ℕ × (ℕ → ℕ)))
      → Built with_argc (l.cpp + 4) l.cp args r
      → BuiltBlock mem l.cpp l.cp args (elim r [
        | none ↦ none
        | some (cpp, mem') ↦ some (store_word (cpp + 4) null (store_word cpp null mem'))
      ])
  end_of_loop r (built end mem' at pointers strings same) =
      finished-block end mem' at pointers strings same

  -- For a load that fits, with the arguments in the buffer below the block, the end of LoadProgram
  -- puts on the stack the number of arguments, a pointer to each, two null pointers, zeros and the
  -- arguments themselves, so that the new program reads the same strings, and changes nothing
  -- below.
  pub build_args-BuiltBlock :
      (argbuf : ℕ)
      → AreTexts args
      → StringsAt mem argbuf args
      → argbuf + span args ≤ l.cpp
      → BuiltBlock mem l.cpp l.cp args (build_args (span args) (length args) l argbuf mem)
  unfolding build_args with_argc cleared
  build_args-BuiltBlock argbuf texts h low =
      let words = f.words in
      let top = f.cp in
      end_of_loop (argv_loop (span args) (length args) (l.cpp + 4) l.cp argbuf with_argc) (
        argv_loop-Built (span args) (l.cpp + 4) l.cp argbuf args with_argc texts
          (StringsAt-frame mem with_argc argbuf args (λ i lo hi. with_argc-below i (omega arith)) h)
          (omega arith) (omega arith) (omega arith) (omega arith))
