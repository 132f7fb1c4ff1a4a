-- ===== src/Examples/Memory.antt =====
-- peek and poke on a range of three bytes that crosses the end of a page.
use oryx_hurd.Base.{
  ℕ, ◌+◌, ◌-◌, ◌<◌, ◌≡◌, refl, ◌⊎◌, true, none, some, List, [], ◌∷◌, length, get_or, if◌then◌else◌,
  arith, ◌==◌, ltb,
}
use oryx_hurd.Memory.{peek, poke, poke_alloc, poke_pages, page_down, page_span}
use oryx_hurd.Host.{Host}
use oryx_hurd.Memory.{peek_str, peek_str_loop, peek_slice, str_chunk, str_found, has_zero, splice}
use oryx_hurd.Memory.Str.{Ended, peek_str-Ended, peek_str_loop-enough}
use oryx_hurd.Memory.Peek.{peek_lem}
use oryx_hurd.Memory.Poke.{poke_lem}
use oryx_hurd.Examples.Toy.{Toy, toy, byte, toy-MemLaws, zero_regs}

abbrev ramp : Toy
ramp = record {
  mem = λ t x. if t == 7 then x - 4000 else 0;
  regs = λ t. zero_regs;
  opened = λ h. true;
  next = 3;
  replies = [];
}

peek_lem_example :
    ((peek toy 7 4095 3 ramp ≡ none)
      × (toy.vm_read 7 (page_down 4095) (page_span 4095 3) ramp ≡ none))
    ⊎ ((d : List ℕ) × (peek toy 7 4095 3 ramp ≡ some d)
        × (length d ≡ 3)
        × ((i : ℕ) → i < 3 → get_or d i 0 ≡ byte ramp 7 (4095 + i)))
peek_lem_example = peek_lem toy-MemLaws 7 4095 3 ramp (omega arith)

poke_lem_example : byte (poke toy 7 4095 (1 ∷ 2 ∷ 3 ∷ []) ramp).1 7 4096 ≡ 2
unfolding poke poke_alloc poke_pages
poke_lem_example =
    poke_lem toy-MemLaws 7 4095 4096 (1 ∷ 2 ∷ 3 ∷ []) ramp (omega arith) (omega arith) refl

-- The page behind 4096 cannot be read.
abbrev torn : Host Toy
torn = record toy { vm_read = λ t a n k. if ltb a 4096 then toy.vm_read t a n k else none }

cut_off : peek_str torn 7 4095 4 (9 ∷ 9 ∷ 9 ∷ 9 ∷ []) ramp ≡ some (95 ∷ 9 ∷ 9 ∷ 9 ∷ [])
unfolding peek_str peek_str_loop str_chunk peek peek_slice str_found has_zero splice
cut_off = refl

peek_str-Ended_example : Ended torn 7 4095 4 ramp (9 ∷ 9 ∷ 9 ∷ 9 ∷ []) (95 ∷ 9 ∷ 9 ∷ 9 ∷ [])
peek_str-Ended_example =
    peek_str-Ended torn 7 4095 4 ramp (9 ∷ 9 ∷ 9 ∷ 9 ∷ []) (95 ∷ 9 ∷ 9 ∷ 9 ∷ []) cut_off

peek_str_loop-enough_example :
    peek_str_loop toy 5 7 4095 4 0 (9 ∷ 9 ∷ 9 ∷ 9 ∷ []) ramp
    ≡ peek_str_loop toy 4 7 4095 4 0 (9 ∷ 9 ∷ 9 ∷ 9 ∷ []) ramp
peek_str_loop-enough_example =
    peek_str_loop-enough toy 7 4095 4 ramp 4 0 (9 ∷ 9 ∷ 9 ∷ 9 ∷ []) (omega arith) (omega arith)
