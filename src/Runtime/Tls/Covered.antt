-- ===== src/Runtime/Tls/Covered.antt =====
-- protect_tls_pages protects the whole region but the page of the stack pointer of compartment 0.
use ia2_phase.Runtime.{Phdr, DlPhdrInfo}
use ia2_phase.Runtime.Pages.{Protect}
use ia2_phase.Runtime.Pages.Regions.{is_protected}
use ia2_phase.Runtime.Pages.Protected.{is_protected-append}
use ia2_phase.Runtime.Tls.{protect_tls_segment, tls_start, tls_len, tls_end, read_write, protect_if}
use ia2_phase.Base.{
  ℕ, Bool, ◌==◌, ◌+◌, ◌-◌, ◌%◌, ◌&&◌, ◌≡◌, ◌<◌, ◌≤◌, true, false, ltb, leb, not, arith, refl,
  Returns, Returns->>=, Bool-cases, inl, inr, u64, ◌∙◌,
}

-- The region holds the stack pointer of compartment 0.
abbrev pub is_split : ℕ → DlPhdrInfo → Phdr → Bool
is_split untrusted info phdr = leb info.dlpi_tls_data untrusted && ltb untrusted (tls_end info phdr)

-- Around the page of the stack pointer nothing wraps.
around :
    (untrusted : ℕ) (info : DlPhdrInfo) (phdr : Phdr)
    → info.dlpi_tls_data + phdr.p_memsz < 18446744073709551616
    → untrusted % 4096 ≡ 0
    → is_split untrusted info phdr ≡ true
    → (u64 (untrusted + 4096) ≡ untrusted + 4096)
      × (untrusted + 4096 ≤ tls_end info phdr)
      × (tls_end info phdr < 18446744073709551616)
      × (tls_start info ≤ untrusted)
around untrusted info phdr fits aligned inside =
    let below : untrusted < tls_end info phdr = ground arith in
    let above : info.dlpi_tls_data ≤ untrusted = ground arith in
    (omega arith, omega arith, omega arith, omega arith)

module _ (succeeds : Protect → Bool) (always : (c : Protect) → succeeds c ≡ true) where
  protect_if-covered :
      (b : Bool) (c : Protect)
      → Returns
          (protect_if succeeds b c)
          (λ calls. (a : ℕ) → is_protected calls a ≡ (b && leb c.addr a && ltb a (c.addr + c.len)))
  protect_if-covered false c = λ a. refl
  protect_if-covered true c = rw (always c) (λ a. ground arith)

  -- For a padded region that does not wrap and a stack pointer of compartment 0 at the start of a
  -- page, which only the region of compartment 1 may hold: if the kernel makes the calls, exactly
  -- the pages of the region are protected, without the page of that stack pointer where the region
  -- holds it.
  pub protect_tls_segment-covered :
      (untrusted pkey : ℕ) (info : DlPhdrInfo) (phdr : Phdr)
      → 4096 ≤ phdr.p_memsz
      → info.dlpi_tls_data + phdr.p_memsz < 18446744073709551616
      → untrusted % 4096 ≡ 0
      → (is_split untrusted info phdr ≡ true → pkey ≡ 1)
      → Returns (protect_tls_segment succeeds untrusted pkey info phdr) (λ calls.
        (a : ℕ)
        → is_protected calls a ≡ (
            leb (tls_start info) a
            && ltb a (tls_end info phdr)
            && not (is_split untrusted info phdr && (leb untrusted a && ltb a (untrusted + 4096)))))
  unfolding protect_tls_segment
  protect_tls_segment-covered untrusted pkey info phdr padded fits aligned one =
      let some_pages : (tls_len info phdr == 0) ≡ false = ground arith in
      rw some_pages (
        rw aligned (elim (Bool-cases (is_split untrusted info phdr)) [
          | inl inside ↦ rw inside (
              rw (one inside) (
                let (e, l, small, above) = around untrusted info phdr fits aligned inside in
                let len = u64 (tls_end info phdr + 18446744073709551616 - u64 (untrusted + 4096)) in
                let e' : len ≡ tls_end info phdr - (untrusted + 4096) = omega arith in
                let front = read_write (tls_start info) (untrusted - tls_start info) 1 in
                let back = read_write (u64 (untrusted + 4096)) len 1 in
                Returns->>= _ (protect_if succeeds (ltb (tls_start info) untrusted) front) _
                  (protect_if-covered (ltb (tls_start info) untrusted) front)
                  (λ before j.
                    Returns->>= _ (protect_if succeeds (ltb 0 len) back) _
                      (protect_if-covered (ltb 0 len) back)
                      (λ after k a.
                        is_protected-append before after a ∙ ground (arith, j a, k a)))))
          | inr outside ↦ rw outside (
              rw (always (read_write (tls_start info) (tls_len info phdr) pkey))
                (λ a. ground arith))
        ]))
