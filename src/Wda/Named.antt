-- ===== src/Wda/Named.antt =====
-- The names in what the client returns: of sessions and of elements (internal/driver/wda/client.go).
use ios_pilot.Base.{String, ◌≡◌, ◌≢◌, refl, Bool, true, false, List, [], ◌∷◌, arith, eq_iff}
use ios_pilot.Errors.{wrapped, Result, ok, err}
use ios_pilot.Base.Text.{concat}
use ios_pilot.Json.{obj, field, end}
use ios_pilot.Driver.{WdaElement}
use ios_pilot.Wda.Payload.{
  HttpReply, Net, SessionIds, session_id, assign_session, decoded, then_result, with_label,
}
use ios_pilot.Wda.Client.{
  asking, create_session, get_element_tree, labelled, resolve, search_element, find_element,
}

session_id_named : (ids : SessionIds) (s : String) → session_id ids ≡ ok s → s ≢ ""
unfolding session_id
session_id_named ids s h = ground (arith, eq_iff ids.inner "", eq_iff ids.outer "")

then_session_named : (r : Result SessionIds) (s : String) → then_result r session_id ≡ ok s → s ≢ ""
then_session_named (ok ids) s h = session_id_named ids s h
then_session_named (err e) s h = absurd cc

with_label-label : (value : String) (els : List WdaElement) → (with_label value els).label ≡ value
unfolding with_label
with_label-label value [] = refl
with_label-label value (el ∷ els) =
    ground (arith, with_label-label value els, eq_iff el.label value)

module _ {W : Type 0} (net : Net W) where
  -- what the response is read as
  asked_named :
      (r : Result HttpReply) (s : String)
      → (elim r [
        | err e ↦ err (wrapped "create session" e)
        | ok reply ↦
            then_result
              (decoded "create session: decode response" assign_session
                (record { inner = ""; outer = "" })
                (net.json_body reply))
              session_id
      ])
        ≡ ok s
      → s ≢ ""
  asked_named (err e) s h = absurd cc
  asked_named (ok reply) s h =
      then_session_named
        (decoded "create session: decode response" assign_session
          (record { inner = ""; outer = "" }) (net.json_body reply))
        s h

  -- A session that the client makes has an identifier that is not empty, whatever WDA answers.
  pub create_session_named :
      (url : String) (w : W) (s : String) → (create_session net url w).0 ≡ ok s → s ≢ ""
  unfolding create_session asking
  create_session_named url w s h =
      let (r, w') =
        net.post (concat (url ∷ "/session" ∷ [])) (obj (field "capabilities" (obj end) end)) w in
      asked_named r s h

  labelled-label :
      (value : String) (r : Result (List WdaElement)) (el : WdaElement)
      → labelled net value r ≡ ok el
      → el.label ≡ value
  unfolding labelled
  labelled-label value (err e) el h = absurd cc
  labelled-label value (ok els) el h = ground (arith, with_label-label value els)

  resolve-label :
      (url sid value : String) (r : Result Bool) (w : W) (el : WdaElement)
      → (resolve net url sid value r w).0 ≡ ok el
      → el.label ≡ value
  unfolding resolve
  resolve-label url sid value (err e) w el h = absurd cc
  resolve-label url sid value (ok false) w el h = absurd cc
  resolve-label url sid value (ok true) w el h =
      labelled-label value (get_element_tree net url sid w).0 el h

  -- An element that `FindElement` returns has the label that was looked for.
  pub find_element-label :
      (url sid using value : String) (w : W) (el : WdaElement)
      → (find_element net url sid using value w).0 ≡ ok el
      → el.label ≡ value
  unfolding find_element
  find_element-label url sid using value w el h =
      let (r, w') = search_element net url sid using value w in
      resolve-label url sid value r w' el h
