-- ===== src/Syscalls/Print.antt =====
-- etc/yuserlib/yuser/ttylib.c: `TtyPrintf`.
use yalnix_os_project.Base.{
  ℕ, ◌+◌, ◌<◌, ◌≡◌, refl, inl, inr, Option, none, some, List, length, arith,
}
use yalnix_os_project.Bytes.{write_string, read_string}
use yalnix_os_project.Bytes.Words.{Outside}
use yalnix_os_project.Bytes.Strings.{
  IsText, StringAt, write_string-StringAt, write_string_other, read_string-StringAt,
}
use yalnix_os_project.UserHeap.State.{UserHeap, Link}
use yalnix_os_project.UserHeap.Chain.{Cell}
use yalnix_os_project.UserHeap.Serve.{Sound}
use yalnix_os_project.Syscalls.{Trap, tty_write, request, checked_call}
use yalnix_os_project.Syscalls.Calls.{checked_call-Sound}

-- The size of `tty_buff`.
abbrev pub tty_buff_size : ℕ
tty_buff_size = 4096

-- `vsprintf` to `buff`, where `text` is what it makes of the format and the arguments.
abbrev pub printed : ℕ → List ℕ → UserHeap → UserHeap
printed buff text s = record s { bytes = write_string buff text s.bytes }

-- `buff` is the address of `tty_buff`; the fuel is enough for the `strlen` of what is in it.
unfoldable pub tty_printf : Link → Trap → ℕ → ℕ → List ℕ → UserHeap → Option (ℕ × UserHeap)
tty_printf link trap buff tty text s =
    let s1 = printed buff text s in
    elim (read_string (length text + 1) buff s1.bytes) [
      | none ↦ none
      | some t ↦ checked_call link trap (tty_write tty buff (length t)) s1
    ]

printed-Sound :
    (buff : ℕ) (text : List ℕ) (s : UserHeap) (cs : List Cell)
    → Sound s cs
    → Sound (printed buff text s) cs
printed-Sound buff text s cs o =
    let b = o.bounds in
    record {
      ready = o.ready;
      bounds = record {
        start_pos = b.start_pos;
        start_lt_end = b.start_lt_end;
        end_low = b.end_low;
      };
      chain = o.chain;
    }

-- In a program with a sound heap, TtyPrintf of a text without NUL that is shorter than the buffer
-- returns what the kernel answers to one TtyWrite, which has the terminal, the buffer and the
-- length of the text. The text stands in the buffer, and no byte outside it has changed, nor has
-- anything else of the heap.
pub tty_printf-StringAt :
    (link : Link) (trap : Trap) (buff tty : ℕ) (text : List ℕ) (s : UserHeap) (cs : List Cell)
    → IsText text
    → length text < tty_buff_size
    → Sound s cs
    → (t : UserHeap) × (tty_printf link trap buff tty text s
        ≡ some (trap (request (tty_write tty buff (length text))), t))
      × StringAt t.bytes buff text
      × ((i : ℕ) → Outside buff (buff + tty_buff_size) i → t.bytes i ≡ s.bytes i)
      × (t ≡ record s { bytes = t.bytes })
unfolding tty_printf
tty_printf-StringAt link trap buff tty text s cs plain short o =
    let there = write_string-StringAt buff text s.bytes in
    let back =
      read_string-StringAt (length text + 1) buff text (write_string buff text s.bytes)
        (omega arith) plain there in
    (
      printed buff text s,
      rw (tty_printf, back)
          (checked_call-Sound link trap (tty_write tty buff (length text)) (printed buff text s) cs
            (printed-Sound buff text s cs o)),
      there,
      λ i out.
          write_string_other buff text s.bytes i
            (elim out [ inl lt ↦ inl lt | inr ge ↦ inr (omega arith) ]),
      refl,
    )
