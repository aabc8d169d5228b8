-- ===== src/Params/Layout.antt =====
-- Where allocate_param_locations puts the parameters that do not fit in registers.
use ia2_phase.Abi.{Arch, AbiSignature}
use ia2_phase.Abi
use ia2_phase.Params.{round_up, Kind, ArgLocation, Slots, push_back}
use ia2_phase.Base.{
  ℕ, ◌+◌, ◌≤◌, ◌<◌, ◌-◌, arith, ◌%◌, ◌≡◌, List, if◌then◌else◌, ◌∷◌, ◌⊎◌, [], true, false,
}

pub round_up-le :
    (offset align : ℕ)
    → 0 < align
    → offset + align < 18446744073709551616
    → offset ≤ round_up offset align
unfolding round_up
round_up-le offset align p h = ground arith

pub round_up-lt :
    (offset align : ℕ)
    → 0 < align
    → offset + align < 18446744073709551616
    → round_up offset align < offset + align
unfolding round_up
round_up-lt offset align p h = ground arith

pad-mod : (offset align : ℕ) → 0 < align → (offset + (align - offset % align)) % align ≡ 0
pad-mod offset align p = grind arith

pub round_up-mod :
    (offset align : ℕ)
    → 0 < align
    → offset + align < 18446744073709551616
    → round_up offset align % align ≡ 0
unfolding round_up
round_up-mod offset align p h = ground (arith, pad-mod offset align)

-- The bytes that a location takes in the stack area: an indirect argument is a pointer there.
abbrev pub extent : ArgLocation → ℕ
extent l = if l.indirect_on_stack then 8 else Abi.size l

abbrev pub IsAligned : Kind → ArgLocation → Type 0
IsAligned Kind.memory l = l.stack_offset % l.align ≡ 0
IsAligned _ l = Unit

-- The stack locations of the list lie one behind the other between `lo` and `hi`.
abbrev pub Laid : ℕ → List ArgLocation → ℕ → Type 0
Laid lo [] hi = lo ≤ hi
Laid lo (l ∷ ls) hi = elim l.on_stack [
  | true ↦ (lo ≤ l.stack_offset) × IsAligned l.kind l × Laid (l.stack_offset + extent l) ls hi
  | false ↦ Laid lo ls hi
]

pub Laid-mono : (lo hi hi' : ℕ) (ls : List ArgLocation) → Laid lo ls hi → hi ≤ hi' → Laid lo ls hi'
Laid-mono lo hi hi' [] h k = omega arith
Laid-mono lo hi hi' (l ∷ ls) h k =
    ground (arith, Laid-mono lo hi hi' ls, Laid-mono (l.stack_offset + extent l) hi hi' ls)

pub Laid-push_back :
    (lo hi hi' : ℕ) (ls : List ArgLocation) (l : ArgLocation)
    → Laid lo ls hi
    → hi ≤ hi'
    → Laid hi (l ∷ []) hi'
    → Laid lo (push_back ls l) hi'
Laid-push_back lo hi hi' [] l h k p = ground arith
Laid-push_back lo hi hi' (x ∷ ls) l h k p =
    ground
      (arith, Laid-push_back lo hi hi' ls l, Laid-push_back (x.stack_offset + extent x) hi hi' ls l)

-- What a slot may add to the stack area, with its padding.
abbrev pub demand : List ArgLocation → ℕ
demand [] = 0
demand (l ∷ ls) = l.raw_size + l.align + 8 + demand ls

-- An integer of at most one eightbyte; sizes and alignments are those of an `unsigned`.
pub record IsNarrow (l : ArgLocation) : Type 0 where
  pub narrow : l.kind ≡ Kind.integral → (l.raw_size ≤ 8) ⊎ (l.indirect_on_stack ≡ true)
  pub aligned : 0 < l.align
  pub size_bound : l.raw_size < 4294967296
  pub align_bound : l.align < 4294967296

abbrev pub IsPlaced : Slots → List ArgLocation → Type 0
IsPlaced s ls = Laid 0 s.args s.stack_offset × (s.stack_offset + demand ls < 18446744073709551616)
