-- ===== src/Requests/Separate.antt =====
-- The invariant of the table of resource requests: identifiers are unique, tickets grow along the
-- table and stay below the counter, and two active requests never hold conflicting claims.
use computerpilot_mcp.Prelude.{
  ℕ, ◌<◌, String, Bool, true, false, List, some, ◌≡◌, arith, ◌==◌, string_eq, All, AllPairs,
  All-map, eq_iff, ltb,
}
use computerpilot_mcp.Prelude.Table.{
  find_unique, AllPairs-update_where, AllPairs-update_one, All-update_where, All-zip, update_where,
}
use computerpilot_mcp.Claims.{ResourceClaim, claim_sets_conflict}
use computerpilot_mcp.Claims.Cover.{claim_sets_conflict_sym}
use computerpilot_mcp.Store.{Db, ResourceRequest, is_active, has_request_id, find_request}
use computerpilot_mcp.Requests.{update_request, activate}

pub record Separate (x y : ResourceRequest) : Type 0 where
  pub distinct : (x.request_id == y.request_id) ≡ false
  pub ordered : ltb x.ticket y.ticket ≡ true
  pub exclusive :
      is_active x.state ≡ true
      → is_active y.state ≡ true
      → claim_sets_conflict x.claims y.claims ≡ false

pub record IsSeparated (db : Db) : Type 0 where
  pub pairs : AllPairs Separate db.requests
  pub below : All (λ r. r.ticket < db.next_request) db.requests

-- An update that leaves what identifies a request alone, and activates none.
pub record IsHarmless (f : ResourceRequest → ResourceRequest) : Type 0 where
  pub same_id : (r : ResourceRequest) → (f r).request_id ≡ r.request_id
  pub same_ticket : (r : ResourceRequest) → (f r).ticket ≡ r.ticket
  pub same_claims : (r : ResourceRequest) → (f r).claims ≡ r.claims
  pub not_activated :
      (r : ResourceRequest) → is_active (f r).state ≡ true → is_active r.state ≡ true

module _ (f : ResourceRequest → ResourceRequest) (h : IsHarmless f) where
  Separate-right : (x y : ResourceRequest) → Separate x y → Separate x (f y)
  Separate-right x y s = record {
    distinct = rw (h.same_id y) s.distinct;
    ordered = rw (h.same_ticket y) s.ordered;
    exclusive = λ a b. rw (h.same_claims y) (s.exclusive a (h.not_activated y b));
  }

  Separate-left : (x y : ResourceRequest) → Separate x y → Separate (f x) y
  Separate-left x y s = record {
    distinct = rw (h.same_id x) s.distinct;
    ordered = rw (h.same_ticket x) s.ordered;
    exclusive = λ a b. rw (h.same_claims x) (s.exclusive (h.not_activated x a) b);
  }

  pub update_requests-IsSeparated :
      (p : ResourceRequest → Bool) (db : Db)
      → IsSeparated db
      → IsSeparated (record db { requests = update_where p f db.requests })
  update_requests-IsSeparated p db inv = record {
    pairs = AllPairs-update_where Separate p f Separate-right Separate-left db.requests inv.pairs;
    below =
        All-update_where (λ r. r.ticket < db.next_request) p f (λ r _ b. rw (h.same_ticket r) b)
          db.requests inv.below;
  }

  pub update_request-IsSeparated :
      (i : String) (db : Db) → IsSeparated db → IsSeparated (update_request i f db)
  update_request-IsSeparated i db inv = update_requests-IsSeparated (has_request_id i) db inv

one_with_id :
    (i : String) (x y : ResourceRequest)
    → Separate x y
    → has_request_id i x ≡ true
    → has_request_id i y ≡ false
one_with_id i x y s t = ground (
  arith,
  s.distinct,
  eq_iff x.request_id i,
  eq_iff y.request_id i,
  eq_iff x.request_id y.request_id,
)

-- Activation keeps the invariant if no other active request conflicts with the claims.
module _ (canonical : List ResourceClaim) (now : ℕ) where
  abbrev Clear : ResourceRequest → Type 0
  Clear y = is_active y.state ≡ true → claim_sets_conflict canonical y.claims ≡ false

  abbrev Owns : ResourceRequest → Type 0
  Owns x = x.claims ≡ canonical

  activate-left :
      (x y : ResourceRequest) → Separate x y → Owns x → Clear y → Separate (activate now x) y
  activate-left x y s o c = record {
    distinct = s.distinct;
    ordered = s.ordered;
    exclusive = λ a b. rw o (c b);
  }

  activate-right :
      (x y : ResourceRequest) → Separate x y → Clear x → Owns y → Separate x (activate now y)
  activate-right x y s c o = record {
    distinct = s.distinct;
    ordered = s.ordered;
    exclusive = λ a b. rw (o, claim_sets_conflict_sym) (c a);
  }

  pub activate-IsSeparated :
      (i : String) (row : ResourceRequest) (db : Db)
      → IsSeparated db
      → find_request i db ≡ some row
      → row.claims ≡ canonical
      → All (λ r. has_request_id i r ≡ false → Clear r) db.requests
      → IsSeparated (update_request i (activate now) db)
  activate-IsSeparated i row db inv found owns clear = record {
    pairs =
        AllPairs-update_one Separate (has_request_id i) (activate now) Owns Clear (one_with_id i)
          activate-left activate-right db.requests inv.pairs
          (All-zip (λ r. has_request_id i r ≡ true → Owns r)
            (λ r. has_request_id i r ≡ false → Clear r) db.requests
            (All-map (λ r. has_request_id i r ≡ true → r ≡ row)
              (λ r. has_request_id i r ≡ true → Owns r) (λ r g t. rw (g t) owns) db.requests
              (find_unique Separate (has_request_id i) (one_with_id i) db.requests row inv.pairs
                found))
            clear);
    below =
        All-update_where (λ r. r.ticket < db.next_request) (has_request_id i) (activate now)
          (λ r _ b. b) db.requests inv.below;
  }
