-- ===== src/Bridge/Invariant/Seats.antt =====
-- CodexBridge: the roles under registration, departure and change of the controller.
use mathlib.Core.Option
use aisuite.Common.{
  ℕ, ◌+◌, ◌%◌, ◌^◌, ◌<◌, ◌≡◌, ◌≢◌, refl, sym, ap, ◌∙◌, inl, inr, true, Option, none, some, is_some,
  arith, if◌then◌else◌, Bool-cases, Option-cases, Text, text, text_eq, text_eq_iff, text_eq_refl,
  to_string, to_string_injective, drop, drop-length_append, length, Map, lookup, contains, assign,
  lookup-emplace, lookup-assign, lookup-erase,
}
use aisuite.Json.{Json}
use aisuite.Envelope.{controller, observer}
use aisuite.Bridge.State.{FrontendRecord, Core}
use aisuite.Bridge.Frontends.{
  connection_name, is_controller, admit, newcomer, becomes_controller, forget, step_down, promoted,
  promote,
}
use aisuite.Bridge.Invariant.{role_of, RolesAgree, Named}

pub connection_name_injective : (m n : ℕ) → connection_name m ≡ connection_name n → m ≡ n
unfolding connection_name
connection_name_injective m n e =
    let p = text "frontend-" in
    to_string_injective m n (
      sym (drop-length_append p (to_string m))
      ∙ ap (drop (length p)) e
      ∙ drop-length_append p (to_string n))

-- A new name is not in use.
pub Named-fresh :
    (frontends : Map FrontendRecord) (next : ℕ)
    → Named frontends next
    → lookup (connection_name next) frontends ≡ none
Named-fresh frontends next v = elim (Option-cases (lookup (connection_name next) frontends)) [
  | inl e ↦ e
  | inr (r, e) ↦
      let (n, lt, same) = v (connection_name next) (ap is_some e) in
      let equal = connection_name_injective next n same in absurd (omega arith)
]

pub is_controller-eq :
    (leader : Option Text) (id : Text) → is_controller leader id ≡ true → leader ≡ some id
unfolding is_controller
is_controller-eq none id e = cc
is_controller-eq (some c) id e = ap some ((text_eq_iff c id).0 e)

pub is_controller_refl : (id : Text) → is_controller (some id) id ≡ true
unfolding is_controller
is_controller_refl id = text_eq_refl id

lookup-step_down :
    (id i : Text) (frontends : Map FrontendRecord)
    → lookup i (step_down (some id) frontends) ≡ (
        if text_eq id i
        then Option.map {A = FrontendRecord}
            (λ r. record r { role = observer })
            (lookup i frontends)
        else lookup i frontends)
unfolding step_down
lookup-step_down id i frontends = elim (Option-cases (lookup id frontends)) [
  | inl k ↦ ground (arith, text_eq_iff id i)
  | inr (r, k) ↦
      ground (arith, text_eq_iff id i, lookup-assign id i (record r { role = observer }) frontends)
]

-- After the previous controller has stepped down no frontend has its role.
pub step_down-observer :
    (leader : Option Text) (frontends : Map FrontendRecord) (i : Text)
    → RolesAgree frontends leader
    → role_of (step_down leader frontends) i ≢ some controller
unfolding step_down
step_down-observer none frontends i v e = ground (arith, v.only i)
step_down-observer (some id) frontends i v e =
    ground (arith, v.only i, text_eq_iff id i, lookup-step_down id i frontends)

pub step_down-contains :
    (leader : Option Text) (frontends : Map FrontendRecord) (i : Text)
    → contains i (step_down leader frontends) ≡ contains i frontends
unfolding step_down
step_down-contains none frontends i = refl
step_down-contains (some id) frontends i = ground (arith, lookup-step_down id i frontends)

module _ {j : Json} where
  pub admit-Named :
      (c : Core j) (endpoint : ℕ)
      → c.next_connection_number + 1 < 2 ^ 64
      → Named c.frontends c.next_connection_number
      → Named (admit c endpoint).frontends (admit c endpoint).next_connection_number
  unfolding admit
  admit-Named c endpoint small v id e =
      let n = c.next_connection_number in
      let grown : (n + 1) % 2 ^ 64 ≡ n + 1 = omega arith in
      elim (Bool-cases (contains id c.frontends)) [
        | inl old ↦ let (m, lt, is) = v id old in (m, omega arith, is)
        | inr new ↦ (
          n,
          omega arith,
          ground (
            arith,
            text_eq_iff (connection_name n) id,
            lookup-emplace (connection_name n) id (newcomer c endpoint) c.frontends,
          ),
        )
      ]

  pub admit-RolesAgree :
      (c : Core j) (endpoint : ℕ)
      → Named c.frontends c.next_connection_number
      → RolesAgree c.frontends c.controller
      → RolesAgree (admit c endpoint).frontends (admit c endpoint).controller
  unfolding admit newcomer becomes_controller
  admit-RolesAgree c endpoint n v =
      let id = connection_name c.next_connection_number in
      let r = newcomer c endpoint in
      let free = Named-fresh c.frontends c.next_connection_number n in
      record {
        leads = λ i h.
            ground (arith, free, v.leads i, text_eq_iff id i, lookup-emplace id i r c.frontends);
        only = λ i h.
            ground (arith, free, v.only i, text_eq_iff id i, lookup-emplace id i r c.frontends);
      }

  pub forget-RolesAgree :
      (c : Core j) (id : Text)
      → RolesAgree c.frontends c.controller
      → RolesAgree (forget c id).frontends (forget c id).controller
  unfolding forget
  forget-RolesAgree c id v =
      let lost = is_controller-eq c.controller id in
      let again = is_controller_refl id in
      record {
        leads = λ i h.
            ground (arith, again, v.leads i, text_eq_iff id i, lookup-erase id i c.frontends);
        only =
            λ i h. ground (arith, lost, v.only i, text_eq_iff id i, lookup-erase id i c.frontends);
      }

  pub forget-Named :
      (c : Core j) (id : Text)
      → Named c.frontends c.next_connection_number
      → Named (forget c id).frontends (forget c id).next_connection_number
  unfolding forget
  forget-Named c id v i e = v i (ground (arith, lookup-erase id i c.frontends))

  promote-eq-some :
      (c d : Core j) (id : Text)
      → promote c (some id) ≡ some d
      → (r : FrontendRecord) × (lookup id (step_down c.controller c.frontends) ≡ some r)
        × (d.frontends
            ≡ assign id (record r { role = controller }) (step_down c.controller c.frontends))
        × (d.controller ≡ some id)
        × (d.next_connection_number ≡ c.next_connection_number)
  unfolding promote promoted
  promote-eq-some c d id e = elim (Option-cases (lookup id (step_down c.controller c.frontends))) [
    | inl k ↦ absurd (ground arith)
    | inr (r, k) ↦ (r, k, ground arith, ground arith, ground arith)
  ]

  promote-found :
      (c d : Core j) (id : Text)
      → promote c (some id) ≡ some d
      → (r : FrontendRecord) × (lookup id (step_down c.controller c.frontends) ≡ some r)
        × (d ≡ promoted c id r)
  unfolding promote
  promote-found c d id e = elim (Option-cases (lookup id (step_down c.controller c.frontends))) [
    | inl k ↦ absurd (ground arith)
    | inr (r, k) ↦ (r, k, ground arith)
  ]

  -- `frontends_.at` finds the record of an id that is registered.
  pub promote-total :
      (c : Core j) (id : Text)
      → contains id c.frontends ≡ true
      → (d : Core j) × (promote c (some id) ≡ some d)
  unfolding promote
  promote-total c id e = elim (Option-cases (lookup id (step_down c.controller c.frontends))) [
    | inl k ↦ absurd (ground (arith, step_down-contains c.controller c.frontends id))
    | inr (r, k) ↦ (promoted c id r, rw (k, promote))
  ]

  pub promote-RolesAgree :
      (c d : Core j) (id : Option Text)
      → RolesAgree c.frontends c.controller
      → promote c id ≡ some d
      → RolesAgree d.frontends d.controller
  unfolding promote
  promote-RolesAgree c d none v e = record {
    leads = λ i h. ground arith;
    only = λ i h. ground (arith, step_down-observer c.controller c.frontends i v);
  }
  promote-RolesAgree c d (some id) v e =
      let (r, found, fs, leader, _) = promote-eq-some c d id e in
      let down = step_down c.controller c.frontends in
      record {
        leads = λ i h. rw fs (
            ground
              (arith, text_eq_iff id i, lookup-assign id i (record r { role = controller }) down));
        only = λ i h. ground (
          arith,
          text_eq_iff id i,
          rw fs at h,
          lookup-assign id i (record r { role = controller }) down,
          step_down-observer c.controller c.frontends i v,
        );
      }

  pub promote-contains :
      (c d : Core j) (id : Option Text) (i : Text)
      → promote c id ≡ some d
      → contains i d.frontends ≡ contains i c.frontends
  unfolding promote
  promote-contains c d none i e = ground (arith, step_down-contains c.controller c.frontends i)
  promote-contains c d (some id) i e =
      let (r, found, fs, _, _) = promote-eq-some c d id e in
      let down = step_down c.controller c.frontends in
      rw fs (
        ground (
          arith,
          text_eq_iff id i,
          lookup-assign id i (record r { role = controller }) down,
          step_down-contains c.controller c.frontends i,
        ))

  promote-number :
      (c d : Core j) (id : Option Text)
      → promote c id ≡ some d
      → d.next_connection_number ≡ c.next_connection_number
  unfolding promote
  promote-number c d none e = ground arith
  promote-number c d (some id) e = (promote-eq-some c d id e).4

  pub promote-Named :
      (c d : Core j) (id : Option Text)
      → promote c id ≡ some d
      → Named c.frontends c.next_connection_number
      → Named d.frontends d.next_connection_number
  promote-Named c d id e v i k =
      let (n, lt, is) = v i (sym (promote-contains c d id i e) ∙ k) in
      (n, rw (promote-number c d id e) lt, is)

  pub promote-shape :
      (c d : Core j) (id : Option Text)
      → promote c id ≡ some d
      → d ≡ record c {
        frontends = d.frontends;
        controller = d.controller;
        next_connection_number = d.next_connection_number;
      }
  unfolding promote promoted
  promote-shape c d none e = ground arith
  promote-shape c d (some id) e = let (r, found, _) = promote-found c d id e in ground arith
