-- ===== src/Admin/Keeps.antt =====
-- internal/admin/admin.go: what the three changes to the state keep, every request keeps.
use go_lb.Base.{String, inl, inr, Bool, true, false, str_eq, Bool-cases, Result-cases}
use go_lb.Backend.{Url}
use go_lb.Base.Int.{ℤ}
use go_lb.Admin.{
  Call, Server, Decoding, remove_url, set_alive_url, add_parsed, handle_add, remove_backend,
  handle_set_alive, handle,
}

-- The changes that handlers make keep the predicate.
pub record Kept {ℓ} (P : Server → Type ℓ) : Type ℓ where
  pub adds : (u : Url) (weight : ℤ) (s : Server) → P s → P (add_parsed u weight s).0
  pub removes : (url : String) (s : Server) → P s → P (remove_url url s).0
  pub sets : (url : String) (up : Bool) (s : Server) → P s → P (set_alive_url url up s).0

module _ {ℓ} (d : Decoding) (P : Server → Type ℓ) (kept : Kept P) where
  handle_add-Kept : (body : String) (s : Server) → P s → P (handle_add d body s).0
  unfolding handle_add
  handle_add-Kept body s v = elim (Result-cases (d.decode body)) [
    | inl (cause, e) ↦ rw (e, handle_add) v
    | inr (req, e) ↦ elim (Bool-cases (str_eq req.url "")) [
      | inl empty ↦ rw (e, handle_add, empty) v
      | inr given ↦ elim (Result-cases (d.parse req.url)) [
        | inl (cause, e') ↦ rw (e, handle_add, given, e') v
        | inr (u, e') ↦ rw (e, handle_add, given, e') (kept.adds u req.weight s v)
      ]
    ]
  ]

  remove_backend-Kept : (path : String) (s : Server) → P s → P (remove_backend d path s).0
  unfolding remove_backend
  remove_backend-Kept path s v = elim (Result-cases (d.unescape path)) [
    | inl (cause, e) ↦ rw (e, remove_backend) v
    | inr (url, e) ↦ rw (e, remove_backend) (kept.removes url s v)
  ]

  handle_set_alive-Kept :
      (path : String) (up : Bool) (s : Server) → P s → P (handle_set_alive d path up s).0
  unfolding handle_set_alive
  handle_set_alive-Kept path up s v = elim (Result-cases (d.unescape path)) [
    | inl (cause, e) ↦ rw (e, handle_set_alive) v
    | inr (url, e) ↦ rw (e, handle_set_alive) (kept.sets url up s v)
  ]

  pub handle-Kept : (c : Call) (s : Server) → P s → P (handle d c s).0
  unfolding handle
  handle-Kept Call.list s v = v
  handle-Kept (Call.add body) s v = handle_add-Kept body s v
  handle-Kept (Call.delete_url url) s v = remove_backend-Kept url s v
  handle-Kept (Call.enable url) s v = handle_set_alive-Kept url true s v
  handle-Kept (Call.disable url) s v = handle_set_alive-Kept url false s v
