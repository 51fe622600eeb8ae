-- ===== src/Plugin/Contract/Chaining.antt =====
-- The order in which the plugins of a chain run.
use dealer.Base.{ℕ, zero, suc, ◌≡◌, refl, ap, ◌∙◌, sym, List, [], ◌∷◌, ◌++◌, get_elem?, length}
use dealer.Http.Request.{Request}
use dealer.Plugin.Contract.{Env, Handler, Plugin, wrap_at, chain_from, chain}

-- A request changed by each of the functions in turn.
abbrev pub passed : List (Request → Request) → Request → Request
passed [] r = r
passed (f ∷ fs) r = passed fs (f r)

module _ {S : Type 0} where
  chain_from-cons :
      (p : Plugin S) (ps : List (Plugin S)) (i : ℕ) (h : Handler S)
      → chain_from (p ∷ ps) (suc i) h ≡ p.wrap (chain_from ps i h)
  unfolding chain_from
  chain_from-cons p ps zero h = refl
  chain_from-cons p ps (suc i) h = chain_from-cons p ps i (wrap_at (get_elem? ps i) h)

  -- The first plugin is the outermost: it gets the chain of the others as its next handler.
  pub chain-cons :
      (p : Plugin S) (ps : List (Plugin S)) (final : Handler S)
      → chain (p ∷ ps) final ≡ p.wrap (chain ps final)
  unfolding chain
  chain-cons p ps final = chain_from-cons p ps (length ps) final

  chain-nil : (final : Handler S) → chain [] final ≡ final
  unfolding chain chain_from
  chain-nil final = refl

  -- The plugins of a list run before those of the list behind it, whose chain they get as the
  -- final handler.
  pub chain-append :
      (ps qs : List (Plugin S)) (final : Handler S)
      → chain (ps ++ qs) final ≡ chain ps (chain qs final)
  chain-append [] qs final = sym (chain-nil (chain qs final))
  chain-append (p ∷ ps) qs final =
      chain-cons p (ps ++ qs) final
      ∙ ap p.wrap (chain-append ps qs final)
      ∙ sym (chain-cons p ps (chain qs final))

  -- A plugin that answers a request by itself.
  abbrev pub Blocks : Plugin S → Request → Env S → Env S → Type 0
  Blocks p r e answer = (next : Handler S) → p.wrap next r e ≡ answer

  -- A plugin that passes a request on, changed by `f`.
  abbrev pub Passes : Plugin S → (Request → Request) → Request → Env S → Type 0
  Passes p f r e = (next : Handler S) → p.wrap next r e ≡ next (f r) e

  -- The request as the plugins pass it on, each seeing what those before it made of it.
  abbrev pub PassAll : List (Plugin S) → List (Request → Request) → Request → Env S → Type 0
  PassAll [] [] r e = Unit
  PassAll (p ∷ ps) (f ∷ fs) r e = Passes p f r e × PassAll ps fs (f r) e
  PassAll _ _ r e = ⊥

  -- If the plugins before it pass the request on, a plugin that blocks it decides the answer:
  -- neither the plugins behind it nor the final handler are called.
  pub chain_blocked :
      (before : List (Plugin S)) (fs : List (Request → Request)) (p : Plugin S)
      (behind : List (Plugin S)) (final : Handler S) (r : Request) (e answer : Env S)
      → PassAll before fs r e
      → Blocks p (passed fs r) e answer
      → chain (before ++ p ∷ behind) final r e ≡ answer
  chain_blocked [] [] p behind final r e answer _ b =
      ap (λ h. h r e) (chain-cons p behind final) ∙ b (chain behind final)
  chain_blocked [] (f ∷ fs) p behind final r e answer h b = elim h [ ]
  chain_blocked (q ∷ before) [] p behind final r e answer h b = elim h [ ]
  chain_blocked (q ∷ before) (f ∷ fs) p behind final r e answer (h, hs) b =
      ap (λ k. k r e) (chain-cons q (before ++ p ∷ behind) final)
      ∙ h (chain (before ++ p ∷ behind) final)
      ∙ chain_blocked before fs p behind final (f r) e answer hs b
