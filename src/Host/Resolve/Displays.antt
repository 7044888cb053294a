-- ===== src/Host/Resolve/Displays.antt =====
-- The search of the code finds the displays of the abstract view (host/src/main.c,
-- connector_is_connected, address_from_connector, discover_address).
use cec_controller.Common.{
  ℕ, ◌≡◌, refl, sym, ap, ◌∙◌, subst, Bool, Bool-cases, Option-cases, List, [], ◌∷◌, ◌++◌,
  if◌then◌else◌, Option, none, some, is_some, Text, codes, strip_prefix, true, false, inl, inr,
  arith,
}
use mathlib.Core.Bool.{false≢true}
use cec_controller.Serial.Settings.{c_string}
use cec_controller.Host.Edid.{cecctl_edid_physical_address}
use cec_controller.Host.Files.{Disk, Contents, contents, read_file, joined}
use cec_controller.Host.Discovery.{
  connector_is_connected, address_in, address_at, address_from_connector, Search, has_part, hdmi,
  connected_hdmi, match_at, as_match, candidate,
}
use cec_controller.Host.Resolve.Choice.{HasEdid, IsDisplay, Displays, candidates}
use cec_controller.Host.Resolve.Parts.{
  strip_prefix-back, is_some-rest, Split, has_part-Split, has_part-front,
}

-- The address at a directory.
address_in-found :
    (c : Contents) (a : ℕ)
    → address_in c ≡ Search.address a
    → (edid : Text) × (c ≡ contents edid) × (cecctl_edid_physical_address edid ≡ some (some a))
unfolding address_in
address_in-found (Contents.unread e) a h = ground arith
address_in-found (contents edid) a h = (edid, refl, ground arith)

address_at-found :
    (disk : Disk) (directory : Text) (a : ℕ) (path : Option Text)
    → joined directory (codes "edid") ≡ path
    → address_at disk path ≡ Search.address a
    → HasEdid disk directory a
unfolding address_at HasEdid
address_at-found disk directory a none e h = ground arith
address_at-found disk directory a (some path) e h =
    let (edid, r, f) = address_in-found (read_file disk path 32768) a h in (path, e, edid, r, f)

pub address-HasEdid :
    (disk : Disk) (directory : Text) (a : ℕ)
    → address_from_connector disk directory ≡ Search.address a
    → HasEdid disk directory a
unfolding address_from_connector
address-HasEdid disk directory a h =
    address_at-found disk directory a (joined directory (codes "edid")) refl h

pub HasEdid-address :
    (disk : Disk) (directory : Text) (a : ℕ)
    → HasEdid disk directory a
    → address_from_connector disk directory ≡ Search.address a
unfolding address_from_connector address_at address_in HasEdid
HasEdid-address disk directory a (path, e, edid, r, f) =
    rw (address_from_connector, e, address_at, r, address_in, f) refl

-- The connector of a candidate.
connected-status :
    (disk : Disk) (directory : Text)
    → connector_is_connected disk directory ≡ true
    → (path : Text) × (joined directory (codes "status") ≡ some path)
      × (status : Text) × (read_file disk path 31 ≡ contents status)
      × (rest : Text) × (c_string status ≡ codes "connected" ++ rest)
unfolding connector_is_connected
connected-status disk directory h = at_path (joined directory (codes "status")) refl h
  where
    at_contents :
        (path : Text) (c : Contents)
        → joined directory (codes "status") ≡ some path
        → read_file disk path 31 ≡ c
        → elim c [
          | Contents.unread _ ↦ false
          | contents status ↦ is_some (strip_prefix (codes "connected") (c_string status))
        ]
          ≡ true
        → (path : Text) × (joined directory (codes "status") ≡ some path)
          × (status : Text) × (read_file disk path 31 ≡ contents status)
          × (rest : Text) × (c_string status ≡ codes "connected" ++ rest)
    at_contents path (Contents.unread _) e r h = absurd (false≢true h)
    at_contents path (contents status) e r h =
        let (rest, f) = is_some-rest (strip_prefix (codes "connected") (c_string status)) h in
        (path, e, status, r, rest, strip_prefix-back (codes "connected") (c_string status) rest f)

    at_path :
        (o : Option Text)
        → joined directory (codes "status") ≡ o
        → elim o [
          | none ↦ false
          | some path ↦ elim (read_file disk path 31) [
            | Contents.unread _ ↦ false
            | contents status ↦ is_some (strip_prefix (codes "connected") (c_string status))
          ]
        ]
          ≡ true
        → (path : Text) × (joined directory (codes "status") ≡ some path)
          × (status : Text) × (read_file disk path 31 ≡ contents status)
          × (rest : Text) × (c_string status ≡ codes "connected" ++ rest)
    at_path none e h = absurd (false≢true h)
    at_path (some path) e h = at_contents path (read_file disk path 31) e refl h

none-some : {A B : Type 0} {a : A} → none ≡ some a → B
none-some e = cc

some_inj : {A : Type 0} {a b : A} → some a ≡ some b → a ≡ b
some_inj e = cc

picked :
    (b : Bool) (o : Option Text) (test : Text → Bool) (d : Text)
    → (if b
        then (elim o [ none ↦ none | some path ↦ if test path then some path else none ])
        else none)
      ≡ some d
    → (b ≡ true) × (o ≡ some d) × (test d ≡ true)
picked false o test d h = none-some h
picked true none test d h = none-some h
picked true (some path) test d h = elim (Bool-cases (test path)) [
  | inl on ↦
      let e : path ≡ d = some_inj (rw on at h) in (refl, ap some e, subst (λ t. test t ≡ true) e on)
  | inr off ↦ none-some (rw off at h)
]

module _ (disk : Disk) (root name : Text) where
  connected_hdmi-parts :
      (directory : Text)
      → connected_hdmi disk root name ≡ some directory
      → (has_part hdmi name ≡ true)
        × (joined root name ≡ some directory)
        × (connector_is_connected disk directory ≡ true)
  unfolding connected_hdmi
  connected_hdmi-parts directory h =
      picked (has_part hdmi name) (joined root name) (connector_is_connected disk) directory h

  connected-IsDisplay :
      (directory : Text) (a : ℕ)
      → connected_hdmi disk root name ≡ some directory
      → address_from_connector disk directory ≡ Search.address a
      → IsDisplay disk root name a
  unfolding Split
  connected-IsDisplay directory a h found =
      let (part, inside, on) = connected_hdmi-parts directory h in
      let (front, back, named) = has_part-Split hdmi name part in
      let (path, there, status, r, rest, c) = connected-status disk directory on in
      record {
        front = front;
        back = back;
        named = named;
        directory = directory;
        inside = inside;
        status_path = path;
        status_there = there;
        status = status;
        status_read = r;
        rest = rest;
        connected = c;
        edid = address-HasEdid disk directory a found;
      }

  IsMatch : ℕ × Text → Type 0
  IsMatch one = (one.1 ≡ name) × IsDisplay disk root name one.0

  as_match-IsMatch :
      (directory : Text) (s : Search) (one : ℕ × Text)
      → connected_hdmi disk root name ≡ some directory
      → address_from_connector disk directory ≡ s
      → as_match name s ≡ some one
      → IsMatch one
  unfolding IsMatch
  as_match-IsMatch directory (Search.address a) one h e m =
      let same : (a, name) ≡ one = some_inj m in
      (
        sym (ap (λ (t : ℕ × Text). t.1) same),
        subst (IsDisplay disk root name) (ap (λ (t : ℕ × Text). t.0) same)
            (connected-IsDisplay directory a h e),
      )
  as_match-IsMatch directory (Search.lost x) one h e m = none-some m

  match_at-IsMatch :
      (found : Option Text) (one : ℕ × Text)
      → connected_hdmi disk root name ≡ found
      → match_at disk name found ≡ some one
      → IsMatch one
  unfolding match_at
  match_at-IsMatch none one h m = none-some m
  match_at-IsMatch (some directory) one h m =
      as_match-IsMatch directory (address_from_connector disk directory) one h refl m

  candidate-IsMatch : (one : ℕ × Text) → candidate disk root name ≡ some one → IsMatch one
  unfolding candidate
  candidate-IsMatch one h = match_at-IsMatch (connected_hdmi disk root name) one refl h

  -- And a display is a candidate.
  IsDisplay-candidate :
      (a : ℕ) → IsDisplay disk root name a → candidate disk root name ≡ some (a, name)
  unfolding candidate connected_hdmi connector_is_connected match_at
  IsDisplay-candidate a d =
      rw
        (
          candidate,
          connected_hdmi,
          part,
          d.inside,
          connector_is_connected,
          d.status_there,
          d.status_read,
          d.connected,
          HasEdid-address disk d.directory a d.edid,
        )
        refl
    where
      part : has_part hdmi name ≡ true
      part = rw d.named (has_part-front hdmi d.front d.back)

-- The search of the code leaves out no display and finds nothing else.
pub candidates-Displays :
    (disk : Disk) (root : Text) (names : List Text)
    → Displays disk root names (candidates disk root names)
unfolding candidates IsMatch
candidates-Displays disk root [] = Displays.none_left
candidates-Displays disk root (name ∷ names) = elim (Option-cases (candidate disk root name)) [
  | inl e ↦
      rw (candidates, e)
        (Displays.dark (λ a d. none-some (sym e ∙ IsDisplay-candidate disk root name a d))
          (candidates-Displays disk root names))
  | inr ((a, other), e) ↦
      let (same, display) = candidate-IsMatch disk root name (a, other) e in
      rw (candidates, e, same) (Displays.shown display (candidates-Displays disk root names))
]
