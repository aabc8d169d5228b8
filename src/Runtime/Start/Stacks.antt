-- ===== src/Runtime/Start/Stacks.antt =====
-- Every compartment that is configured gets its own stack, which is protected with its key.
use ia2_phase.Runtime.Pages.{page_down}
use ia2_phase.Runtime.Tls.{read_write}
use ia2_phase.Runtime.Start.{
  Environment, CompartmentConfig, Runtime, stack_size, set, allocate_stack, setup_compartments,
  setup_configured, initial, allocate_stack_0, set_up_tags_from, ia2_start,
  ia2_unprotect_thread_pointer_page, is_padded,
}
use ia2_phase.Runtime.Start.Tags.{final_tag, final_tag-append, final_tag-untouched}
use ia2_phase.Base.{
  ℕ, List, some, none, [], ◌∷◌, ◌==◌, ◌+◌, ◌-◌, ◌≡◌, ◌<◌, true, u64, arith, refl, sym, ◌∙◌, subst,
  ◌≤◌, Returns, suc, Returns->>=, Returns-map, Bool-cases, inl, inr, zero,
}
use ia2_phase.Runtime.Start.Setup.{
  Cooperates, HasStack, IsApart, HasStack-Extends, setup_configured-IsSetUp,
}

-- After the loop over the `n` compartments from `i` on, for the compartment `j`.
record AllSetUp (env : Environment) (config : ℕ → CompartmentConfig) (j n i : ℕ) (s u : Runtime)
    : Type 0 where
  before : j < i → HasStack env j s → HasStack env j u
  ready : (name : List ℕ) → i ≤ j → j < i + n → (config j).dso ≡ some name → HasStack env j u

setup_compartments-AllSetUp :
    (env : Environment) (config : ℕ → CompartmentConfig) (j n i : ℕ) (s : Runtime)
    → IsApart env config j
    → 1 ≤ i
    → i + n ≤ 16
    → ((k : ℕ) → i ≤ k → k < i + n → Cooperates env (config k) k)
    → ((k : ℕ) → i ≤ k → s.stacks k ≡ 0)
    → Returns (setup_compartments env config n i s) (AllSetUp env config j n i s)
unfolding setup_compartments
setup_compartments-AllSetUp env config j zero i s own p bound h z = record {
  before = λ k w. w;
  ready = λ name k l e. absurd (omega arith);
}
setup_compartments-AllSetUp env config j (suc n) i s own p bound h z =
    Returns->>= _ (setup_configured env (config i) i s) _
      (setup_configured-IsSetUp env (config i).dso (config i).extra_libraries i s
        (h i (omega arith) (omega arith)) p (z i (omega arith)))
      (λ s' (x, made).
        Returns-map (setup_compartments env config n (i + 1) s')
          (setup_compartments-AllSetUp env config j n (i + 1) s' own (omega arith) (omega arith)
            (λ k f l. h k (omega arith) (omega arith))
            (λ k f. x.stacks k (ground arith) ∙ z k (omega arith)))
          (λ u w. record {
            before = λ k w'. w.before (omega arith) (
                HasStack-Extends env config i j s s' p (omega arith) (ground arith) (ground arith)
                  own x w');
            ready = λ name k l e. elim (Bool-cases (j == i)) [
              | inl same ↦
                  let eq : j ≡ i = ground arith in
                  let own_i = subst (IsApart env config) eq own in
                  subst (λ q. HasStack env q u) (sym eq)
                    (subst (λ q. HasStack env q s' → HasStack env q u) eq (w.before (omega arith))
                      (made name (subst (λ q. (config q).dso ≡ some name) eq e)
                        (λ stack a f g. own_i.libraries stack a i f g p (omega arith))))
              | inr apart ↦ w.ready name (ground arith) (omega arith) e
            ];
          }))

-- The answers let the start up to the compartments and behind them through.
pub record Boots (env : Environment) : Type 0 where
  pub tags : set_up_tags_from env 15 1 ≡ true
  pub padded : is_padded env ≡ true
  pub stack : ℕ
  pub mapped : env.map_stack 0 ≡ some stack
  pub shared : env.protects (read_write (page_down env.thread_pointer) 4096 0) ≡ true

after_stack_0 : ℕ → Runtime
after_stack_0 stack = record initial {
  stacks = set 0 stack (λ i. 0);
  stackptrs = set 0 (u64 (stack + stack_size - 8)) (λ i. 0);
}

allocate_stack_0_lem :
    (env : Environment) (stack : ℕ)
    → env.map_stack 0 ≡ some stack
    → allocate_stack_0 env initial ≡ some (after_stack_0 stack)
unfolding allocate_stack_0 allocate_stack after_stack_0
allocate_stack_0_lem env stack e = rw e refl

after_stack_0-fresh : (stack j : ℕ) → 1 ≤ j → (after_stack_0 stack).stacks j ≡ 0
unfolding after_stack_0
after_stack_0-fresh stack j h = ground arith

-- If the keys come in order, the stack pointers of compartments 0 and 1 lie on different pages, and
-- for each of the compartments 1 to 15 that is configured its library opens, its stack is mapped in
-- whole pages and the calls for its memory succeed, then the start returns, with the initialization
-- over, and a configured compartment whose stack is memory of its own has the stack that was mapped
-- for it, a stack pointer 8 bytes below the top, and its key as the one that the last call for each
-- address of the stack gives. Memory of its own: the stacks of the other configured compartments,
-- the memory that is protected for any library and the page of the thread pointer lie elsewhere.
pub ia2_start-HasStack :
    (env : Environment) (config : ℕ → CompartmentConfig) (i : ℕ) (name : List ℕ)
    → Boots env
    → ((j : ℕ) → 1 ≤ j → j < 16 → Cooperates env (config j) j)
    → 1 ≤ i
    → i < 16
    → (config i).dso ≡ some name
    → IsApart env config i
    → Returns (ia2_start env config) (λ u. (u.init_finished ≡ true) × HasStack env i u)
unfolding ia2_start ia2_unprotect_thread_pointer_page
ia2_start-HasStack env config i name b h l k e own =
    let s = after_stack_0 b.stack in
    let call = read_write (page_down env.thread_pointer) 4096 0 in
    rw b.tags (
      rw b.padded (
        rw (allocate_stack_0_lem env b.stack b.mapped) (
          Returns->>= _ (setup_compartments env config 15 1 s) _
            (setup_compartments-AllSetUp env config i 15 1 s own (omega arith) (omega arith)
              (λ j f g. h j f (omega arith)) (λ j p. after_stack_0-fresh b.stack j p))
            (λ u w.
              let at = w.ready name l (omega arith) e in
              rw b.shared (
                refl,
                record {
                  stack = at.stack;
                  mapped = at.mapped;
                  recorded = at.recorded;
                  top = at.top;
                  aligned = at.aligned;
                  protected = λ a q.
                      final_tag-append u.calls (call ∷ []) none a
                      ∙ final_tag-untouched (call ∷ []) (final_tag u.calls none a) a
                          (rw (own.thread_pointer at.stack a at.mapped q) refl)
                      ∙ at.protected a q;
                },
              )))))
