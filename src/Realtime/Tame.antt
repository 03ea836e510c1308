-- ===== src/Realtime/Tame.antt =====
-- What no goroutine does to a connection: rename it, open it again once it is closed, or let more
-- frames wait than its buffer holds.
use Prim.Native.Nat.{◌≤◌}
use geo_spatial_dispatch_ser.Prelude.{
  ℕ, ◌+◌, String, ◌≡◌, refl, ◌∙◌, Bool, true, false, Option, none, some, List, [], ◌∷◌, ◌++◌, arith,
  nat_eq, Bool-cases, inl, inr, if◌then◌else◌,
}
use geo_spatial_dispatch_ser.Result.{Result, ok, err}
use geo_spatial_dispatch_ser.Float.{Float}
use geo_spatial_dispatch_ser.Realtime.Messages.{Message, Json}
use geo_spatial_dispatch_ser.Realtime.Clients.{
  Client, close, set_subscribed, send_bytes, send_message, send_encoded, send_error, send_ack,
  length, send_capacity,
}
use geo_spatial_dispatch_ser.Realtime.Registry.{Ref, Registry}
use geo_spatial_dispatch_ser.Realtime.Systems.{Heap, modify, close_each, close_old}
use geo_spatial_dispatch_ser.Realtime.Hub.{fan_out}

pub record Tame (c d : Client) : Type 0 where
  pub id : d.id ≡ c.id
  pub kind : d.kind ≡ c.kind
  pub done : c.done ≡ true → d.done ≡ true
  pub bounded : length c.send ≤ send_capacity → length d.send ≤ send_capacity

pub Tame-refl : (c : Client) → Tame c c
Tame-refl c = record { id = refl; kind = refl; done = λ h. h; bounded = λ h. h }

pub Tame-trans : (c d e : Client) → Tame c d → Tame d e → Tame c e
Tame-trans c d e f g = record {
  id = g.id ∙ f.id;
  kind = g.kind ∙ f.kind;
  done = λ h. g.done (f.done h);
  bounded = λ h. g.bounded (f.bounded h);
}

pub length-append {ℓ} : {A : Type ℓ} (xs : List A) (x : A) → length (xs ++ (x ∷ [])) ≡ length xs + 1
length-append [] x = refl
length-append (y ∷ xs) x = ground (arith, length-append xs x)

pub close-Tame : (c : Client) → Tame c (close c)
unfolding close
close-Tame c = record { id = refl; kind = refl; done = λ _. refl; bounded = λ h. h }

pub set_subscribed-Tame :
    (id : String) (flag : Bool) (c : Client) → Tame c (set_subscribed id flag c)
unfolding set_subscribed
set_subscribed-Tame id flag c = record { id = refl; kind = refl; done = λ h. h; bounded = λ h. h }

pub send_bytes-Tame :
    (pick : Bool) (frame : String) (c : Client) → Tame c (send_bytes pick frame c).1
unfolding send_bytes
send_bytes-Tame pick frame c = record {
  id = ground arith;
  kind = ground arith;
  done = ground arith;
  bounded = ground (arith, length-append c.send frame);
}

module _ ⦃F : Float⦄ ⦃J : Json⦄ (pick : Bool) where
  encoded-Tame : (result : Result String) (c : Client) → Tame c (send_encoded pick result c).1
  unfolding send_encoded
  encoded-Tame (ok frame) c = send_bytes-Tame pick frame c
  encoded-Tame (err e) c = Tame-refl c

  pub send_message-Tame : (msg : Message) (c : Client) → Tame c (send_message pick msg c).1
  unfolding send_message
  send_message-Tame msg c = encoded-Tame (J.encode_message msg) c

  pub send_error-Tame :
      (now : ℕ) (code text : String) (c : Client) → Tame c (send_error pick now code text c)
  unfolding send_error
  send_error-Tame now code text c = send_message-Tame _ c

  pub send_ack-Tame : (now : ℕ) (status : String) (c : Client) → Tame c (send_ack pick now status c)
  unfolding send_ack
  send_ack-Tame now status c = send_message-Tame _ c

-- All clients of a heap.
abbrev pub TameHeap : Heap → Heap → Type 0
TameHeap g h = (x : Ref) → Tame (g x) (h x)

pub TameHeap-trans : (f g h : Heap) → TameHeap f g → TameHeap g h → TameHeap f h
TameHeap-trans f g h p q x = Tame-trans (f x) (g x) (h x) (p x) (q x)

pub modify-Tame :
    (r : Ref) (f : Client → Client) (heap : Heap)
    → Tame (heap r) (f (heap r))
    → TameHeap heap (modify r f heap)
unfolding modify
modify-Tame r f heap tame x = elim (Bool-cases (nat_eq x r)) [
  | inl same ↦ let e : x ≡ r = ground arith in rw (same, e) tame
  | inr other ↦ rw other (Tame-refl (heap x))
]

pub close_old-Tame : (old : Option Ref) (heap : Heap) → TameHeap heap (close_old old heap)
unfolding close_old
close_old-Tame none heap x = Tame-refl (heap x)
close_old-Tame (some r) heap x = modify-Tame r close heap (close-Tame (heap r)) x

pub close_each-Tame : (m : Registry) (heap : Heap) → TameHeap heap (close_each m heap)
unfolding close_each
close_each-Tame [] heap = λ x. Tame-refl (heap x)
close_each-Tame ((id, r) ∷ rest) heap =
    TameHeap-trans heap (modify r close heap) _ (modify-Tame r close heap (close-Tame (heap r)))
      (close_each-Tame rest (modify r close heap))

module _ (pick : Ref → Bool) (id frame : String) where
  visit : Bool → Ref → Heap → Heap
  visit flag r heap = if flag then modify r (λ c. (send_bytes (pick r) frame c).1) heap else heap

  visit-Tame : (flag : Bool) (r : Ref) (heap : Heap) → TameHeap heap (visit flag r heap)
  unfolding visit
  visit-Tame true r heap = modify-Tame r _ heap (send_bytes-Tame (pick r) frame (heap r))
  visit-Tame false r heap = λ x. Tame-refl (heap x)

  pub fan_out-Tame : (m : Registry) (heap : Heap) → TameHeap heap (fan_out pick id frame m heap)
  unfolding fan_out visit
  fan_out-Tame [] heap = λ x. Tame-refl (heap x)
  fan_out-Tame ((k, r) ∷ rest) heap =
      TameHeap-trans heap _ _ (visit-Tame _ r heap) (fan_out-Tame rest _)
