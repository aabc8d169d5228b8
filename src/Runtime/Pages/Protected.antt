-- ===== src/Runtime/Pages/Protected.antt =====
-- protect_pages gives the key to the writable segments of an object, and to nothing shared.
use ia2_phase.Runtime.{AddressRange, Phdr, DlPhdrInfo, in_loaded_segment}
use ia2_phase.Runtime.Names.{in_extra_libraries}
use ia2_phase.Runtime.Pages.{
  Protect, PhdrSearchArgs, shared_ranges, relro_range, first_page, last_page, is_protectable,
  segment_flags_to_access_flags, protect_segment, protect_segments, protect_pages,
}
use ia2_phase.Runtime.Pages.Regions.{in_ranges, is_protected, protect_segment-IsCovered}
use ia2_phase.Base.{
  ℕ, Bool, List, some, [], ◌∷◌, ◌++◌, ◌-◌, ◌&&◌, ◌||◌, ◌≡◌, ◌≤◌, true, false, ltb, leb, not, arith,
  refl, Returns, Returns->>=, Returns-map, Bool-cases, inl, inr, All, All-append, length,
}

-- The writable segments hold the address, in whole pages.
abbrev pub in_segments : DlPhdrInfo → List Phdr → ℕ → Bool
in_segments info [] a = false
in_segments info (phdr ∷ phdrs) a =
    (is_protectable phdr && leb (first_page info phdr) a && ltb a (last_page info phdr))
    || in_segments info phdrs a

pub is_protected-append :
    (calls others : List Protect) (a : ℕ)
    → is_protected (calls ++ others) a ≡ (is_protected calls a || is_protected others a)
is_protected-append [] others a = refl
is_protected-append (c ∷ calls) others a = ground (arith, is_protected-append calls others a)

-- The calls protect what the segments and the shared ranges say, all with the key.
pub record AreProtected (info : DlPhdrInfo) (pkey : ℕ) (ranges : List AddressRange)
    (phdrs : List Phdr) (calls : List Protect) : Type 0 where
  pub covered :
      (a : ℕ) → is_protected calls a ≡ (in_segments info phdrs a && not (in_ranges ranges a))
  pub tagged : All (λ c. c.tag ≡ pkey) calls

module _ (succeeds : Protect → Bool) (always : (c : Protect) → succeeds c ≡ true) where
  protect_segments-AreProtected :
      (info : DlPhdrInfo) (pkey : ℕ) (ranges : List AddressRange) (phdrs : List Phdr)
      → Returns
          (protect_segments succeeds info pkey ranges phdrs)
          (AreProtected info pkey ranges phdrs)
  unfolding protect_segments
  protect_segments-AreProtected info pkey ranges [] = record { covered = λ a. refl; tagged = tt }
  protect_segments-AreProtected info pkey ranges (phdr ∷ phdrs) =
      let ih = protect_segments-AreProtected info pkey ranges phdrs in
      elim (Bool-cases (not (is_protectable phdr))) [
        | inl skip ↦
            rw (skip, protect_segments)
              (Returns-map (protect_segments succeeds info pkey ranges phdrs) ih (λ calls k.
                record { covered = λ a. ground (arith, k.covered a); tagged = k.tagged }))
        | inr take ↦
            rw (take, protect_segments)
              (let first = first_page info phdr in
                let last = last_page info phdr in
                let flags = segment_flags_to_access_flags phdr.p_flags in
                Returns->>= _ (protect_segment succeeds (last - first) ranges flags pkey first last)
                  _
                  (protect_segment-IsCovered succeeds always (last - first) ranges flags pkey first
                    last (omega arith))
                  (λ calls j.
                    Returns->>= _ (protect_segments succeeds info pkey ranges phdrs) _ ih
                      (λ others k. record {
                        covered = λ a.
                            ground
                              (arith, is_protected-append calls others a, j.covered a, k.covered a);
                        tagged = All-append (λ c. c.tag ≡ pkey) calls others j.tagged k.tagged;
                      })))
      ]

  -- For an object that holds the address or is an extra library, with shared sections of whole pages
  -- and at most 20 program headers: if the kernel makes the calls, protect_pages returns, its calls
  -- protect exactly the pages of the writable segments that are in no shared section and not in the
  -- RELRO section, and each call gives the compartment's key.
  pub protect_pages-AreProtected :
      (info : DlPhdrInfo) (args : PhdrSearchArgs) (shared : List AddressRange)
      → (in_loaded_segment info args.address
          || in_extra_libraries info.library_name args.extra_libraries)
        ≡ true
      → shared_ranges 4 args.shared_sections ≡ some shared
      → length info.dlpi_phdr ≤ 20
      → Returns (protect_pages succeeds info args) (λ r.
        AreProtected info args.pkey (shared ++ relro_range info info.dlpi_phdr) info.dlpi_phdr r.0)
  unfolding protect_pages
  protect_pages-AreProtected info args shared scope e room =
      let known : (not (in_loaded_segment info args.address)
            && not (in_extra_libraries info.library_name args.extra_libraries))
          ≡ false =
        ground arith in
      let few : leb (length info.dlpi_phdr) 20 ≡ true = ground arith in
      rw (known, protect_pages)
        (rw e (
          rw few (
            Returns->>= _
              (protect_segments succeeds info args.pkey (shared ++ relro_range info info.dlpi_phdr)
                info.dlpi_phdr)
              _
              (protect_segments-AreProtected info args.pkey
                (shared ++ relro_range info info.dlpi_phdr) info.dlpi_phdr)
              (λ calls k. k))))
