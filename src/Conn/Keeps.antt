-- ===== src/Conn/Keeps.antt =====
-- Properties of the connection that a function keeps, whatever it returns.
use polygon.Base.{
  Bool, true, false, List, Error, Result, ok, err, fault, if◌then◌else◌, ◌||◌, ◌≡◌, refl,
}
use polygon.Conn.{Conn, Env, Event, Act, proceed, ◌>>=◌, ◌>>◌, fail_if, call}

abbrev pub Keeps : (Conn → Type 0) → {A : Type 0} → Act A → Type 0
Keeps P m = (conn : Conn) → P conn → P (m conn).0

module _ (P : Conn → Type 0) where
  pub proceed-keeps :
      {A B : Type 0} (r : Conn × Result A) (f : A → Act B)
      → P r.0
      → ((a : A) → Keeps P (f a))
      → P (proceed r f).0
  proceed-keeps (conn, ok a) f h k = k a conn h
  proceed-keeps (conn, err e) f h k = h
  proceed-keeps (conn, fault) f h k = h

  pub Keeps->>= :
      {A B : Type 0} (m : Act A) (f : A → Act B)
      → Keeps P m
      → ((a : A) → Keeps P (f a))
      → Keeps P (m >>= f)
  Keeps->>= m f h k conn p = proceed-keeps (m conn) f (h conn p) k

  pub Keeps->> :
      {B : Type 0} (m : Act (Unit {0})) (f : Act B) → Keeps P m → Keeps P f → Keeps P (m >> f)
  Keeps->> m f h k conn p = proceed-keeps (m conn) (λ _. f) (h conn p) (λ a. k)

  pub Keeps-if :
      {A : Type 0} (b : Bool) (m n : Act A) → Keeps P m → Keeps P n → Keeps P (if b then m else n)
  Keeps-if true m n h k = h
  Keeps-if false m n h k = k

  pub if-keeps :
      {A : Type 0} (b : Bool) (r t : Conn × Result A) → P r.0 → P t.0 → P (if b then r else t).0
  if-keeps true r t h k = h
  if-keeps false r t h k = k

  pub if_or_keeps :
      {A : Type 0} (a b : Bool) (r t : Conn × Result A)
      → P r.0
      → (b ≡ false → P t.0)
      → P (if a || b then r else t).0
  if_or_keeps true b r t h k = h
  if_or_keeps false true r t h k = h
  if_or_keeps false false r t h k = k refl

  pub Keeps-fail_if : (b : Bool) (e : Error) → Keeps P (fail_if b e)
  Keeps-fail_if true e conn p = p
  Keeps-fail_if false e conn p = p

  module _
      (calls : (conn : Conn) (events : List Event)
        → P conn
        → P (record conn { events = events })) where
    pub Keeps-call : (env : Env) (event : Event) → Keeps P (call env event)
    unfolding call
    Keeps-call env event conn p = if-keeps (env.accepts event) _ _ (calls conn _ p) (calls conn _ p)
