-- ===== src/Runtime/Keys.antt =====
-- The runtime and the tracer read the compartment of a PKRU value alike.
use ia2_phase.Runtime.{ia2_get_compartment}
use ia2_phase.Tracer.Keys.{pkey_for_pkru, pkey_invalid}
use ia2_phase.Base.{ℕ, ◌≡◌, ◌==◌, if◌then◌else◌, arith}

-- For every value of PKRU, the runtime's compartment is the one that the tracer reads, and
-- compartment 0 where the tracer finds none.
pub ia2_get_compartment-pkey_for_pkru :
    (pkru : ℕ)
    → ia2_get_compartment pkru
      ≡ (if pkey_for_pkru pkru == pkey_invalid then 0 else pkey_for_pkru pkru)
unfolding ia2_get_compartment pkey_for_pkru
ia2_get_compartment-pkey_for_pkru pkru = ground arith
