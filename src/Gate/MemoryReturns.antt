-- ===== src/Gate/MemoryReturns.antt =====
-- The return register of a result in memory, between allocate_return_locations and
-- emit_scrub_regs.
use ia2_phase.Gate.Scrub.{emit_scrub_regs}
use ia2_phase.Abi.{Arch, ArgLocation}
use ia2_phase.Asm.Machine.{Env, Machine, run}
use ia2_phase.Registers.{reg_eq, rsp, rax}
use ia2_phase.Gate.Items.{total, IsWord}
use ia2_phase.Abi
use ia2_phase.Gate.Scrub.{scrubbed}
use ia2_phase.Abi
use ia2_phase.Base.{
  fold_m, ℕ, ◌<◌, ◌≡◌, Returns, [], ◌∷◌, All, some, false, true, Returns-map, arith, refl,
}
use ia2_phase.ReturnLocs.{allocate_return_locations}
use ia2_phase.Gate.ScrubLaws.{emit_scrub_regs-IsScrubbed, ScrubsRegisters, loc_regs}

-- A result in memory has its address in rax, and the location says so; but as it also counts as a
-- stack location, the code that scrubs the registers on the way back from a compartment other
-- than 0 does not preserve rax, and leaves it zero.
pub memory_return-scrubbed :
    (env : Env) (pkey : ℕ) (size align : ℕ) (m : Machine) (sp : ℕ)
    → ScrubsRegisters env
    → 0 < pkey
    → IsWord m
    → m.reg rsp ≡ sp
    → sp < 18446744073709551616
    → Returns
        (allocate_return_locations (record { args = []; ret = Abi.stack size align ∷ [] }) Arch.x86)
        (λ locs.
          All (λ l. l.reg ≡ some rax) locs
          × Returns (emit_scrub_regs pkey locs false) (λ is. (run env is m).reg rax ≡ 0))
unfolding allocate_return_locations fold_m Abi.stack loc_regs total reg_eq scrubbed
memory_return-scrubbed env pkey size align m sp c k w at room =
    let l : ArgLocation =
      (let s = Abi.stack size align in
        record s { indirect_on_stack = true; allocated = true; reg = some rax }) in
    (
      (refl, tt),
      Returns-map (emit_scrub_regs pkey (l ∷ []) false)
          (emit_scrub_regs-IsScrubbed env pkey (l ∷ []) false m sp c ((λ e. cc), tt) k w at room
            (omega arith))
          (λ is h. h.regs_scrubbed rax refl),
    )
