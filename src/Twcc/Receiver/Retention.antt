-- ===== src/Twcc/Receiver/Retention.antt =====
-- pkg/sfu/twcc.go: which packets `TWCCReceiver.RecordPacket` keeps.
use choice.Base.{
  ltb, if◌then◌else◌, ◌==◌, nat_eq, string_eq, length, All, lookup, insert, lookup-insert, ℕ, ◌≡◌,
  refl, ap, ◌≢◌, false, Option, none, some, List, [], ◌∷◌, arith,
}
use choice.Twcc.{PacketInfo}
use choice.Twcc.Receiver.{TwccReceiver, is_old, drop_old, record_packet}

-- The map holds each sequence number once.
abbrev pub Fresh : ℕ → List (ℕ × PacketInfo) → Type 0
Fresh seq [] = Unit {0}
Fresh seq ((j, _) ∷ m) = (seq ≢ j) × Fresh seq m

abbrev pub Distinct : List (ℕ × PacketInfo) → Type 0
Distinct [] = Unit {0}
Distinct ((j, _) ∷ m) = Fresh j m × Distinct m

Fresh-insert :
    (seq j : ℕ) (pkt : PacketInfo) (m : List (ℕ × PacketInfo))
    → seq ≢ j
    → Fresh seq m
    → Fresh seq (insert j pkt m)
unfolding insert
Fresh-insert seq j pkt [] n f = (n, tt)
Fresh-insert seq j pkt ((i, w) ∷ m) n f = ground (arith, Fresh-insert seq j pkt m n f.1)

insert-Distinct :
    (seq : ℕ) (pkt : PacketInfo) (m : List (ℕ × PacketInfo))
    → Distinct m
    → Distinct (insert seq pkt m)
unfolding insert
insert-Distinct seq pkt [] d = (tt, tt)
insert-Distinct seq pkt ((i, w) ∷ m) d =
    ground (arith, Fresh-insert i seq pkt m, insert-Distinct seq pkt m d.1)

drop_old-Fresh :
    (seq now : ℕ) (m : List (ℕ × PacketInfo)) → Fresh seq m → Fresh seq (drop_old now m)
unfolding drop_old
drop_old-Fresh seq now [] f = tt
drop_old-Fresh seq now ((i, w) ∷ m) f = ground (arith, drop_old-Fresh seq now m f.1)

drop_old-Distinct : (now : ℕ) (m : List (ℕ × PacketInfo)) → Distinct m → Distinct (drop_old now m)
unfolding drop_old
drop_old-Distinct now [] d = tt
drop_old-Distinct now ((i, w) ∷ m) d =
    ground (arith, drop_old-Fresh i now m d.0, drop_old-Distinct now m d.1)

lookup-Fresh : (seq : ℕ) (m : List (ℕ × PacketInfo)) → Fresh seq m → lookup seq m ≡ none
unfolding lookup
lookup-Fresh seq [] f = refl
lookup-Fresh seq ((i, w) ∷ m) f = ground (arith, lookup-Fresh seq m f.1)

unfoldable pub unless_old : ℕ → Option PacketInfo → Option PacketInfo
unless_old now none = none
unless_old now (some pkt) = if is_old now pkt then none else some pkt

lookup-drop_old :
    (now seq : ℕ) (m : List (ℕ × PacketInfo))
    → Distinct m
    → lookup seq (drop_old now m) ≡ unless_old now (lookup seq m)
unfolding lookup drop_old unless_old
lookup-drop_old now seq [] d = refl
lookup-drop_old now seq ((i, w) ∷ m) d =
    ground (arith, lookup-drop_old now seq m d.1, lookup-Fresh seq m)

All-recent :
    (now : ℕ) (m : List (ℕ × PacketInfo)) → All (λ x. is_old now x.1 ≡ false) (drop_old now m)
unfolding drop_old
All-recent now [] = tt
All-recent now ((i, w) ∷ m) = ground (arith, All-recent now m)

-- On an open receiver whose map is well formed, recording a packet keeps the map well formed. What is then
-- found under a number is what was found before, or the new packet under its own number; but if there are
-- more than 1000 packets by then, one that arrived over five seconds before the clean-up is not found. So
-- recent packets are all kept, however many they are.
pub record_packet_retention :
    (t : TwccReceiver) (seq size now later other : ℕ)
    → t.closed ≡ false
    → Distinct t.packets
    → let t' = record_packet t seq size now later in
      let pkt : PacketInfo = record { sequence_number = seq; arrival_time = now; size = size } in
      let before = if seq == other then some pkt else lookup other t.packets in
      Distinct t'.packets
      × (lookup other t'.packets ≡ (
          if ltb 1000 (length (insert seq pkt t.packets)) then unless_old later before else before))
unfolding record_packet
record_packet_retention t seq size now later other o d =
    let pkt : PacketInfo = record { sequence_number = seq; arrival_time = now; size = size } in
    let m = insert seq pkt t.packets in
    let dm = insert-Distinct seq pkt t.packets d in
    let at = lookup-insert seq other pkt t.packets in
    (
      ground (arith, dm, drop_old-Distinct later m dm),
      ground (arith, at, lookup-drop_old later other m dm, ap (unless_old later) at),
    )
