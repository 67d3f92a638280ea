-- ===== src/Server/Forwarding.antt =====
-- pkg/sfu/forwarder.go and pkg/sfu/publisher.go: a packet that is read and forwarded, as each downtrack sees it.
use choice.Base.{
  nat_eq, string_eq, beq_self, Option-cases, lookup, contains, exclude, ℕ, ◌<◌, String, ◌≡◌, sym,
  subst, ◌≢◌, inl, inr, false, Option, none, some, List, [], ◌∷◌, arith, NoRepeat, NoRepeat-exclude,
}
use native.Mathlib.Decide.{ℕ_discrete as dec_eq}
use choice.Rtp.{Packet}
use choice.Store.{Store, Env}
use choice.Store.Rooms.{
  Sets, Silent-refl, SameRooms, SameRooms-trans, SameRooms-refl, Quiet-SameRooms, Quiet, Quiet-refl,
  set_forwarder-Quiet,
}
use choice.Forwarder.{write_down_track, remove_from_forwarder, drop_failed, forward_each, forward}
use choice.Router.{router_forward}
use choice.Server.Streams.{Stream, Stream-trans, Silent-Stream}
use choice.Server.Writing.{
  Given, Quiet-Given, then_nothing, write_down_track-SameRooms, write_own-Given, write_other-Stream,
  write_down_track-Sets,
}

drop_failed-Quiet : (w : Store) (f dt : ℕ) (o : Option String) → Quiet w (drop_failed w f dt o)
unfolding drop_failed remove_from_forwarder
drop_failed-Quiet w f dt none = Quiet-refl w
drop_failed-Quiet w f dt (some e) =
    let fwd = w.forwarders f in
    set_forwarder-Quiet w f (record fwd { down_tracks = exclude dt fwd.down_tracks })
      (NoRepeat-exclude dt fwd.down_tracks)

-- A round for another downtrack.
round_other-Stream :
    (env : Env) (w : Store) (f k dt : ℕ) (p : Packet) (layer : String)
    → k ≢ dt
    → dt < w.next
    → let (w₁, o) = write_down_track env w k p layer in Stream w (drop_failed w₁ f k o) dt []
round_other-Stream env w f k dt p layer n l =
    let (w₁, o) = write_down_track env w k p layer in
    let a = write_other-Stream env w k dt p layer n l in
    let h = drop_failed-Quiet w₁ f k o in
    Stream-trans a (Silent-Stream dt h.next h.silent (omega (arith, l, a.next)))

-- A round for the downtrack itself.
round_own-Given :
    (env : Env) (w : Store) (f dt : ℕ) (p : Packet) (layer : String)
    → dt < w.next
    → let (w₁, o) = write_down_track env w dt p layer in Given w (drop_failed w₁ f dt o) dt p
round_own-Given env w f dt p layer l =
    let (w₁, o) = write_down_track env w dt p layer in
    let g = write_own-Given env w dt p layer l in
    let h = drop_failed-Quiet w₁ f dt o in
    then_nothing g (Silent-Stream dt h.next h.silent (omega (arith, l, g.stream.next)))

forward_absent-Stream :
    (env : Env) (w : Store) (f dt : ℕ) (p : Packet) (layer : String) (dts : List ℕ)
    → contains dt dts ≡ false
    → dt < w.next
    → Stream w (forward_each env w f p layer dts) dt []
unfolding forward_each contains
forward_absent-Stream env w f dt p layer [] a l = Silent-Stream dt (omega arith) (Silent-refl w) l
forward_absent-Stream env w f dt p layer (k ∷ ks) a l =
    let (w₁, o) = write_down_track env w k p layer in
    let other : k ≢ dt = λ e. ground (arith, a, e, beq_self dt) in
    let rest : contains dt ks ≡ false = ground (arith, a) in
    let s = round_other-Stream env w f k dt p layer other l in
    Stream-trans s (
      forward_absent-Stream env (drop_failed w₁ f k o) f dt p layer ks rest
        (omega (arith, l, s.next)))

forward_each-Given :
    (env : Env) (w : Store) (f dt : ℕ) (p : Packet) (layer : String) (dts : List ℕ)
    → NoRepeat dts
    → dt < w.next
    → Given w (forward_each env w f p layer dts) dt p
unfolding forward_each
forward_each-Given env w f dt p layer [] u l = Quiet-Given dt p (Quiet-refl w) l
forward_each-Given env w f dt p layer (k ∷ ks) u l =
    let (w₁, o) = write_down_track env w k p layer in
    let w₂ = drop_failed w₁ f k o in
    elim (dec_eq k dt) [
      | no n ↦
          let s = round_other-Stream env w f k dt p layer n l in
          let g = forward_each-Given env w₂ f dt p layer ks u.1 (omega (arith, l, s.next)) in
          record { given = g.given; stream = Stream-trans s g.stream; picks = g.picks }
      | yes e ↦
          let g : Given w w₂ dt p =
            subst
              (λ j.
                let (v, x) = write_down_track env w j p layer in Given w (drop_failed v f j x) dt p)
              (sym e) (round_own-Given env w f dt p layer l) in
          let rest : contains dt ks ≡ false = subst (λ j. contains j ks ≡ false) e u.0 in
          then_nothing g
            (forward_absent-Stream env w₂ f dt p layer ks rest (omega (arith, l, g.stream.next)))
    ]

pub router_forward-Given :
    (env : Env) (w : Store) (r dt : ℕ) (id : String) (p : Packet) (layer : String)
    → ((f : ℕ) → NoRepeat (w.forwarders f).down_tracks)
    → dt < w.next
    → Given w (router_forward env w r id p layer) dt p
unfolding router_forward forward
router_forward-Given env w r dt id p layer u l =
    elim (Option-cases (lookup id (w.routers r).forwarders)) [
      | inl h ↦ rw (h, router_forward) (Quiet-Given dt p (Quiet-refl w) l)
      | inr (f, h) ↦
          rw (h, router_forward)
            (forward_each-Given env w f dt p layer (w.forwarders f).down_tracks (u f) l)
    ]

forward_each-SameRooms :
    (env : Env) (w : Store) (f : ℕ) (p : Packet) (layer : String) (dts : List ℕ)
    → SameRooms w (forward_each env w f p layer dts)
unfolding forward_each
forward_each-SameRooms env w f p layer [] = SameRooms-refl w
forward_each-SameRooms env w f p layer (dt ∷ dts) =
    let (w₁, o) = write_down_track env w dt p layer in
    SameRooms-trans (write_down_track-SameRooms env w dt p layer) (
      SameRooms-trans (Quiet-SameRooms (drop_failed-Quiet w₁ f dt o))
        (forward_each-SameRooms env (drop_failed w₁ f dt o) f p layer dts))

pub router_forward-SameRooms :
    (env : Env) (w : Store) (r : ℕ) (id : String) (p : Packet) (layer : String)
    → SameRooms w (router_forward env w r id p layer)
unfolding router_forward forward
router_forward-SameRooms env w r id p layer =
    elim (Option-cases (lookup id (w.routers r).forwarders)) [
      | inl h ↦ rw (h, router_forward) (SameRooms-refl w)
      | inr (f, h) ↦ rw (h, router_forward) (forward_each-SameRooms env w f p layer _)
    ]

-- Forwarding keeps the sets free of repetitions.
forward_each-Sets :
    (env : Env) (w : Store) (f : ℕ) (p : Packet) (layer : String) (dts : List ℕ)
    → Sets w (forward_each env w f p layer dts)
unfolding forward_each
forward_each-Sets env w f p layer [] h = h
forward_each-Sets env w f p layer (k ∷ ks) h =
    let (w₁, o) = write_down_track env w k p layer in
    forward_each-Sets env (drop_failed w₁ f k o) f p layer ks
      ((drop_failed-Quiet w₁ f k o).silent.1 (write_down_track-Sets env w k p layer h))

pub router_forward-Sets :
    (env : Env) (w : Store) (r : ℕ) (id : String) (p : Packet) (layer : String)
    → Sets w (router_forward env w r id p layer)
unfolding router_forward forward
router_forward-Sets env w r id p layer = elim (Option-cases (lookup id (w.routers r).forwarders)) [
  | inl n ↦ rw (n, router_forward) (λ h. h)
  | inr (f, n) ↦ rw (n, router_forward) (forward_each-Sets env w f p layer _)
]
