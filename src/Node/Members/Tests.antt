-- ===== src/Node/Members/Tests.antt =====
-- pkg/raft/node.go: a member joins again under another address.
use doq.Common.{
  ◌≡◌, ◌≢◌, refl, sym, ap, ◌∙◌, List, [], ◌∷◌, Bool-cases, ◌⊎◌, inl, inr, if◌then◌else◌,
}
use doq.Common.Text.{Text, bytes, text_eq, text_eq_refl, eq_of_text_eq}
use doq.Errors.{ok}
use doq.Node.Members.{Server, Membership, join_loop, join}
use doq.Node.Members.Laws.{In, server, IsLawful, IsUnique, Joined, join-Joined}

abbrev without : Text → List Server → List Server
without id [] = []
without id (y ∷ servers) =
    let rest = without id servers in if text_eq y.id id then rest else y ∷ rest

abbrev membership : Membership
membership = record {
  State = List Server;
  servers = λ s. ok s;
  remove_server = λ s id. ok (without id s);
  add_voter = λ s id address. ok (server id address ∷ without id s);
}

abbrev IsMember : List Server → Server → Type 0
IsMember s x = In x s

without-In : (id : Text) (s : List Server) (x : Server) → In x (without id s) → In x s × (x.id ≢ id)
unfolding In
without-In id [] x h = absurd h
without-In id (y ∷ s) x h = elim (Bool-cases (text_eq y.id id)) [
  | inl same ↦ let (m, ne) = without-In id s x (rw same at h) in (inr m, ne)
  | inr differs ↦ elim (rw differs at h) [
    | inl here ↦ (inl here, λ e. let t = text_eq_refl id in let d = rw (← here, e) at differs in cc)
    | inr later ↦ let (m, ne) = without-In id s x later in (inr m, ne)
  ]
]

In-without : (id : Text) (s : List Server) (x : Server) → In x s → x.id ≢ id → In x (without id s)
unfolding In
In-without id [] x h ne = absurd h
In-without id (y ∷ s) x (inl here) ne = elim (Bool-cases (text_eq y.id id)) [
  | inl same ↦ absurd (ne (ap (λ (z : Server). z.id) here ∙ eq_of_text_eq y.id id same))
  | inr differs ↦ rw differs (inl here)
]
In-without id (y ∷ s) x (inr later) ne = elim (Bool-cases (text_eq y.id id)) [
  | inl same ↦ rw same (In-without id s x later ne)
  | inr differs ↦ rw differs (inr (In-without id s x later ne))
]

membership-IsLawful : IsLawful membership IsMember
unfolding In
membership-IsLawful = record {
  listed = λ s l x e h. let same : s ≡ l = cc in rw same h;
  complete = λ s l x e h. let same : s ≡ l = cc in rw (← same) h;
  removed = λ s s' id x e h. let same : without id s ≡ s' = cc in without-In id s x (rw same h);
  kept =
      λ s s' id x e h ne. let same : without id s ≡ s' = cc in rw (← same) (In-without id s x h ne);
  added = λ s s' id address e.
      let same : server id address ∷ without id s ≡ s' = cc in rw (← same) (inl refl);
  added_only = λ s s' id address x e h.
      let same : s' ≡ server id address ∷ without id s = cc in
      elim (rw same at h) [ inl here ↦ inl here | inr later ↦ inr (without-In id s x later).0 ];
  added_kept = λ s s' id address x e h ne.
      let same : server id address ∷ without id s ≡ s' = cc in
      rw (← same) (inr (In-without id s x h ne));
}

abbrev first : Server
first = server (bytes "a") (bytes "1")

abbrev second : Server
second = server (bytes "ab") (bytes "12")

abbrev two : List Server
two = first ∷ second ∷ []

two-cases : (x : Server) → In x two → (x ≡ first) ⊎ (x ≡ second)
unfolding In
two-cases x (inl h) = inl h
two-cases x (inr (inl h)) = inr h
two-cases x (inr (inr h)) = absurd h

two-IsUnique : IsUnique membership IsMember two
two-IsUnique = record {
  by_id = λ x y hx hy e. elim (two-cases x hx) [
    | inl p ↦ elim (two-cases y hy) [ inl q ↦ p ∙ sym q | inr q ↦ cc ]
    | inr p ↦ elim (two-cases y hy) [ inl q ↦ cc | inr q ↦ p ∙ sym q ]
  ];
  by_address = λ x y hx hy e. elim (two-cases x hx) [
    | inl p ↦ elim (two-cases y hy) [ inl q ↦ p ∙ sym q | inr q ↦ cc ]
    | inr p ↦ elim (two-cases y hy) [ inl q ↦ cc | inr q ↦ p ∙ sym q ]
  ];
}

join-Joined_example :
    Joined membership IsMember two
      (bytes "ab")
      (bytes "3")
      (server (bytes "ab") (bytes "3") ∷ first ∷ [])
unfolding join join_loop text_eq
join-Joined_example =
    join-Joined membership IsMember two (bytes "ab") (bytes "3") membership-IsLawful two-IsUnique
      (server (bytes "ab") (bytes "3") ∷ first ∷ []) refl
