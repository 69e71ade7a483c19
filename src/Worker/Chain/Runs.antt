-- ===== src/Worker/Chain/Runs.antt =====
-- Reasoning about every run of a function of chain.rs, whatever the replies are.
use rootmode.Prelude.{◌≡◌, refl, ap, subst, some, List, [], ◌∷◌, ◌++◌}
use rootmode.Worker.Errors.{WorkerResult}
use rootmode.Worker.Chain.Io.{Io, await, Event, World, run}

module _ {V : Type 0} where
  -- `Q` holds of the events and the result of every run that ends without a panic, when the events
  -- before it are `h`, the latest first.
  abbrev pub Every :
      {A : Type 0} → (List (Event V) → WorkerResult A → Type 0) → List (Event V) → Io V A → Type 0
  Every Q h (Io.done r) = Q h r
  Every Q h Io.panic = Unit
  Every Q h (Io.sleep ms m) = Every Q h m
  Every Q h (Io.post url q next) =
      (r : WorkerResult V) → Every Q (record { url = url; request = q; reply = r } ∷ h) (next r)

  pub Every-await :
      {A B : Type 0} (Q : List (Event V) → WorkerResult B → Type 0) (m : Io V A)
      (h : List (Event V)) (k : WorkerResult A → Io V B)
      → Every (λ g r. Every Q g (k r)) h m
      → Every Q h (await m k)
  Every-await Q (Io.done r) h k p = p
  Every-await Q Io.panic h k p = tt
  Every-await Q (Io.sleep ms m) h k p = Every-await Q m h k p
  Every-await Q (Io.post url q next) h k p = λ r. Every-await Q (next r) _ k (p r)

  pub weaken :
      {A : Type 0} (P Q : List (Event V) → WorkerResult A → Type 0) (m : Io V A)
      (h : List (Event V))
      → ((g : List (Event V)) (r : WorkerResult A) → P g r → Q g r)
      → Every P h m
      → Every Q h m
  weaken P Q (Io.done r) h f p = f h r p
  weaken P Q Io.panic h f p = tt
  weaken P Q (Io.sleep ms m) h f p = weaken P Q m h f p
  weaken P Q (Io.post url q next) h f p = λ r. weaken P Q (next r) _ f (p r)

  -- The events of a run, the latest first.
  abbrev pub onto : List (Event V) → List (Event V) → List (Event V)
  onto [] h = h
  onto (e ∷ es) h = onto es (e ∷ h)

  pub Every-run :
      {A : Type 0} (W : World V) (Q : List (Event V) → WorkerResult A → Type 0) (m : Io V A)
      (h : List (Event V)) (s : W.State) {r : WorkerResult A}
      → Every Q h m
      → (run W m s).result ≡ some r
      → Q (onto (run W m s).events h) r
  unfolding run
  Every-run W Q (Io.done r) h s p e = subst (λ x. Q h x) (cc e) p
  Every-run W Q Io.panic h s p e = absurd (cc e)
  Every-run W Q (Io.sleep ms m) h s p e = Every-run W Q m h (W.wait s ms) p e
  Every-run W Q (Io.post url q next) h s p e = Every-run W Q (next (W.answer s url q).0) _ _ (p _) e

  -- A run of a sequence is a run of its first part, and then of the rest with what that returned.
  pub run-await :
      {A B : Type 0} (W : World V) (m : Io V A) (k : WorkerResult A → Io V B) (s : W.State)
      {r : WorkerResult A}
      → (run W m s).result ≡ some r
      → let first = run W m s in
        let rest = run W (k r) first.state in
        run W (await m k) s
        ≡ record { result = rest.result; events = first.events ++ rest.events; state = rest.state }
  unfolding run
  run-await W (Io.done r) k s e = ap (λ x. run W (k x) s) (cc e)
  run-await W Io.panic k s e = absurd (cc e)
  run-await W (Io.sleep ms m) k s e = run-await W m k (W.wait s ms) e
  run-await W (Io.post url q next) k s e =
      let a = W.answer s url q in
      ap
        (λ o. record {
          result = o.result;
          events = record { url = url; request = q; reply = a.0 } ∷ o.events;
          state = o.state;
        })
        (run-await W (next a.0) k a.1 e)

  -- A sequence that ends has run its first part to an end, and then the rest.
  pub run-await_inv :
      {A B : Type 0} (W : World V) (m : Io V A) (k : WorkerResult A → Io V B) (s : W.State)
      {r : WorkerResult B}
      → (run W (await m k) s).result ≡ some r
      → (q : WorkerResult A) × ((run W m s).result ≡ some q)
        × ((run W (k q) (run W m s).state).result ≡ some r)
  unfolding run
  run-await_inv W (Io.done q) k s e = (q, refl, e)
  run-await_inv W Io.panic k s e = absurd (cc e)
  run-await_inv W (Io.sleep ms m) k s e = run-await_inv W m k (W.wait s ms) e
  run-await_inv W (Io.post url q next) k s e =
      run-await_inv W (next (W.answer s url q).0) k (W.answer s url q).1 e

  -- What holds of every result holds of every run.
  pub always :
      {A : Type 0} (Q : List (Event V) → WorkerResult A → Type 0) (m : Io V A) (h : List (Event V))
      → ((g : List (Event V)) (r : WorkerResult A) → Q g r)
      → Every Q h m
  always Q (Io.done r) h f = f h r
  always Q Io.panic h f = tt
  always Q (Io.sleep ms m) h f = always Q m h f
  always Q (Io.post url q next) h f = λ r. always Q (next r) _ f
