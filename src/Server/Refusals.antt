-- ===== src/Server/Refusals.antt =====
-- Parts of the program that leave the database alone when they fail with certain errors, whatever others
-- do and however the calls end.
pub mod Operations
pub mod Budgets
pub mod Responses
pub mod Handlers
pub mod Services
pub mod Requests
use geo_spatial_dispatch_ser.Prelude.{
  ℕ, String, ◌≡◌, refl, sym, ap, ◌∙◌, Bool, true, false, ◌||◌, nat_eq, if◌then◌else◌, List, [], ◌∷◌,
  Option, none, some, arith, Bool-cases, inl, inr,
}
use geo_spatial_dispatch_ser.Result.{Error, redis, Result, ok, err}
use geo_spatial_dispatch_ser.Float.{Float}
use geo_spatial_dispatch_ser.Client.{
  World, Turn, Fault, served, refused, lost, Io, pure, raise, attempt, call, ◌>>=◌,
}
use geo_spatial_dispatch_ser.Geo.{lift}
use geo_spatial_dispatch_ser.Server.Http.{Response, Serving, respond, answer}

-- 400 Bad Request or 405 Method Not Allowed.
abbrev pub is_refusal : ℕ → Bool
is_refusal status = nat_eq status 400 || nat_eq status 405

module _ {D : Type 0} (bad : Error → Bool) where
  -- With a bad error nothing has been changed.
  pub record Refuses {A : Type 0} (m : Io D A) : Type 0 where
    pub unchanged : (w : World D) (e : Error) → (m w).0 ≡ err e → bad e ≡ true → (m w).1 ≡ w

  -- There is no bad error.
  pub record Clean {A : Type 0} (m : Io D A) : Type 0 where
    pub good : (w : World D) (e : Error) → (m w).0 ≡ err e → bad e ≡ false

pub err-inj : {A : Type 0} {x y : Error} → ◌≡◌ {A = Result A} (err x) (err y) → x ≡ y
err-inj e = cc

module _ {D : Type 0} (bad : Error → Bool) where
  pub Clean-Refuses : {A : Type 0} (m : Io D A) → Clean bad m → Refuses bad m
  Clean-Refuses m c = record { unchanged = λ w e p b. absurd (cc (c.good w e p, b)) }

  pub raise-Refuses : {A : Type 0} (x : Error) → Refuses bad (raise {D = D} {A = A} x)
  unfolding raise
  raise-Refuses x = record { unchanged = λ w e p b. refl }

  pub raise-Clean : {A : Type 0} (x : Error) → bad x ≡ false → Clean bad (raise {D = D} {A = A} x)
  unfolding raise
  raise-Clean x h = record { good = λ w e p. let same : x ≡ e = err-inj p in rw (sym same) h }

  pub pure-Clean : {A : Type 0} (a : A) → Clean bad (pure {D = D} a)
  unfolding pure
  pure-Clean a = record { good = λ w e p. absurd (cc p) }

  module _ {A : Type 0} (f : D → A × D) (soft : (text : String) → bad (redis text) ≡ false) where
    fault-good :
        (t : Fault) (d : D) (ts : List (Turn D)) (e : Error)
        → (call f (record { db = d; turns = record { others = λ x. x; fault = t } ∷ ts })).0 ≡ err e
        → bad e ≡ false
    unfolding call
    fault-good served d ts e p = absurd (cc p)
    fault-good (refused text) d ts e p =
        let same : redis text ≡ e = err-inj p in rw (sym same) (soft text)
    fault-good (lost text) d ts e p =
        let same : redis text ≡ e = err-inj p in rw (sym same) (soft text)

    turns-good :
        (d : D) (ts : List (Turn D)) (e : Error)
        → (call f (record { db = d; turns = ts })).0 ≡ err e
        → bad e ≡ false
    unfolding call
    turns-good d [] e p = absurd (cc p)
    turns-good d (t ∷ ts) e p = fault-good t.fault (t.others d) ts e p

    -- A call fails with an error of the connection only.
    pub call-Clean : Clean bad (call f)
    call-Clean = record { good = λ w e p. turns-good w.db w.turns e p }

  module _ {A B : Type 0} (f : D → A × D) (soft : (text : String) → bad (redis text) ≡ false)
      (k : A → Io D B) (after : (d : D) → Clean bad (k (f d).0)) where
    served-good :
        (t : Fault) (d : D) (ts : List (Turn D)) (e : Error)
        → ((call f >>= k) (record { db = d; turns = record { others = λ x. x; fault = t } ∷ ts })).0
          ≡ err e
        → bad e ≡ false
    unfolding call ◌>>=◌
    served-good served d ts e p = let it = after d in it.good _ e p
    served-good (refused text) d ts e p =
        let same : redis text ≡ e = err-inj p in rw (sym same) (soft text)
    served-good (lost text) d ts e p =
        let same : redis text ≡ e = err-inj p in rw (sym same) (soft text)

    run-good :
        (d : D) (ts : List (Turn D)) (e : Error)
        → ((call f >>= k) (record { db = d; turns = ts })).0 ≡ err e
        → bad e ≡ false
    unfolding call ◌>>=◌
    run-good d [] e p = let it = after d in it.good _ e p
    run-good d (t ∷ ts) e p = served-good t.fault (t.others d) ts e p

    -- A call, and what is done with the result that the server gives.
    pub call-bind-Clean : Clean bad (call f >>= k)
    call-bind-Clean = record { good = λ w e p. run-good w.db w.turns e p }

  module _ {A B : Type 0} (h : Result A → Io D B) where
    recovered :
        (o : Result A × World D) (e : Error)
        → Clean bad (h o.0)
        → (h o.0 o.1).0 ≡ err e
        → bad e ≡ false
    recovered o e c p = c.good o.1 e p

    -- A part whose error is looked at: none of its errors is bad.
    pub attempt-Clean :
        (m : Io D A)
        → Clean bad m
        → ((o : Result A) → ((x : Error) → o ≡ err x → bad x ≡ false) → Clean bad (h o))
        → Clean bad (attempt m >>= h)
    unfolding ◌>>=◌ attempt
    attempt-Clean m c k = record { good = λ w e p. recovered (m w) e (k _ (c.good w)) p }

  module _ {A B : Type 0} (f : A → Io D B) where
    continued :
        (o : Result A × World D) (e : Error)
        → ((x : Error) → o.0 ≡ err x → bad x ≡ false)
        → ((a : A) → Clean bad (f a))
        → (◌>>=◌ (λ v. o) f o.1).0 ≡ err e
        → bad e ≡ false
    unfolding ◌>>=◌
    continued (ok a, w) e c k p = let ka = k a in ka.good w e p
    continued (err x, w) e c k p = c e (ap (λ (r : Result B). back r) p)
      where
        back : Result B → Result A
        back (ok b) = err x
        back (err y) = err y

    pub bind-Clean : (m : Io D A) → Clean bad m → ((a : A) → Clean bad (f a)) → Clean bad (m >>= f)
    unfolding ◌>>=◌
    bind-Clean m c k = record { good = λ w e p. continued (m w) e (c.good w) k p }

    then-on :
        (o : Result A × World D) (w : World D) (e : Error)
        → ((x : Error) → o.0 ≡ err x → bad x ≡ true → o.1 ≡ w)
        → ((a : A) → Clean bad (f a))
        → (◌>>=◌ (λ v. o) f o.1).0 ≡ err e
        → bad e ≡ true
        → (◌>>=◌ (λ v. o) f o.1).1 ≡ w
    unfolding ◌>>=◌
    then-on (ok a, v) w e c k p b = let ka = k a in absurd (cc (ka.good v e p, b))
    then-on (err x, v) w e c k p b = let same : x ≡ e = err-inj p in c x refl (rw same b)

    -- Only the first part can fail with a bad error.
    pub then-Refuses :
        (m : Io D A) → Refuses bad m → ((a : A) → Clean bad (f a)) → Refuses bad (m >>= f)
    unfolding ◌>>=◌
    then-Refuses m r k = record { unchanged = λ w e p b. then-on (m w) w e (r.unchanged w) k p b }

    -- A check before anything else.
    pub lift-Refuses :
        (r : Result A) → ((a : A) → Refuses bad (f a)) → Refuses bad (lift {D = D} r >>= f)
    unfolding ◌>>=◌
    lift-Refuses (ok a) k = record { unchanged = λ w e p b. let ka = k a in ka.unchanged w e p b }
    lift-Refuses (err x) k = record { unchanged = λ w e p b. refl }

  pub raise-bind-Refuses : {A B : Type 0} (x : Error) (f : A → Io D B) → Refuses bad (raise x >>= f)
  unfolding ◌>>=◌ raise
  raise-bind-Refuses x f = record { unchanged = λ w e p b. refl }

  pub if-Refuses :
      {A : Type 0} (b : Bool) (m n : Io D A)
      → Refuses bad m
      → (b ≡ false → Refuses bad n)
      → Refuses bad (if b then m else n)
  if-Refuses true m n p q = p
  if-Refuses false m n p q = q refl

module _ ⦃F : Float⦄ {D : Type 0} where
  -- A handler that answers 400 or 405 has changed nothing.
  pub record Refusing (h : Serving D) : Type 0 where
    pub untouched : (w : World D) → is_refusal (h w).0.status ≡ true → (h w).1 ≡ w

  pub respond-Refusing : (response : Response) → Refusing (respond response)
  respond-Refusing response = record { untouched = λ w e. refl }

  pub if-Refusing :
      (b : Bool) (g h : Serving D) → Refusing g → Refusing h → Refusing (if b then g else h)
  if-Refusing true g h p q = p
  if-Refusing false g h p q = q

  module _ {A : Type 0} (bad : Error → Bool) (f : Result A → Response)
      (fine : (a : A) → is_refusal (f (ok a)).status ≡ false)
      (coded : (e : Error) → is_refusal (f (err e)).status ≡ bad e) where
    answered :
        (o : Result A × World D) (w : World D)
        → ((e : Error) → o.0 ≡ err e → bad e ≡ true → o.1 ≡ w)
        → is_refusal (f o.0).status ≡ true
        → o.1 ≡ w
    answered (ok a, v) w c p = absurd (cc (fine a, p))
    answered (err e, v) w c p = c e refl (sym (coded e) ∙ p)

    pub answer-Refusing : (m : Io D A) → Refuses bad m → Refusing (answer m f)
    answer-Refusing m r = record { untouched = λ w p. answered (m w) w (r.unchanged w) p }
