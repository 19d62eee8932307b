-- ===== src/Wda/Client.antt =====
-- The methods of `WDAClient` (internal/driver/wda/client.go), each with the requests that it makes.
use ios_pilot.Base.{
  ℕ, String, Bool, true, false, ◌&&◌, none, some, List, [], ◌∷◌, ◌==◌, leb, nat_eq, if◌then◌else◌,
}
use ios_pilot.Base.Int.{ℤ, pos}
use ios_pilot.Base.Text.{concat, itoa}
use ios_pilot.Errors.{errorf, wrapped, Result, ok, err, Call}
use ios_pilot.Json.{Json, str, arr, obj, end, field}
use ios_pilot.Driver.{WdaElement, WdaDriver}
use ios_pilot.Wda.Elements.{collect_elements, filter_interactive}
use ios_pilot.Wda.Payload.{
  HttpReply, Net, pointer_move, pointer_down, pointer_up, pause, build_pointer_actions, in_value,
  assign_ready, assign_session, WdaError, assign_error, assign_text, assign_found, decoded,
  session_id, then_result, with_label, chars,
}

module _ {W : Type 0} (net : Net W) where
  -- a request, and what is made of its response; an error of the network is wrapped
  unfoldable pub asking :
      {A : Type 0} → String → Call W HttpReply → (HttpReply → Result A) → Call W A
  asking context request read w =
      let (r, w') = request w in
      (elim r [ err e ↦ err (wrapped context e) | ok reply ↦ read reply ], w')

  unfoldable pub status : String → Call W Bool
  unfolding asking decoded
  status url = asking "wda status" (net.get (concat (url ∷ "/status" ∷ []))) (λ reply.
      decoded "wda status: decode response" (in_value assign_ready) false (net.json_body reply))

  unfoldable pub create_session : String → Call W String
  unfolding asking decoded session_id
  create_session url =
      asking "create session"
        (net.post (concat (url ∷ "/session" ∷ [])) (obj (field "capabilities" (obj end) end)))
        (λ reply.
          then_result
            (decoded "create session: decode response" assign_session
              (record { inner = ""; outer = "" }) (net.json_body reply))
            session_id)

  unfoldable pub delete_session : String → String → Call W (Unit {0})
  unfolding asking
  delete_session url sid =
      asking "delete session" (net.delete (concat (url ∷ "/session/" ∷ sid ∷ []))) (λ _. ok tt)

  abbrev session_url : String → String → String → String
  session_url url sid path = concat (url ∷ "/session/" ∷ sid ∷ path ∷ [])

  -- the error in the body of a response
  unfoldable pub wda_error : HttpReply → Result WdaError
  unfolding decoded
  wda_error reply =
      then_result (net.json_text reply.body)
        (λ j. decoded "" (in_value assign_error) (record { message = ""; error = "" }) (ok j))

  unfoldable pub check_response : String → HttpReply → Result (Unit {0})
  unfolding wda_error
  check_response context reply =
      if leb 200 reply.status && leb reply.status 299
      then ok tt
      else (let code = itoa (pos reply.status) in
          let plain = err (
            errorf (
              concat
                (context ∷ ": WDA returned HTTP " ∷ code ∷ ": " ∷ net.text reply.body ∷ []))) in
          elim (wda_error reply) [
            | err _ ↦ plain
            | ok e ↦
                if e.message == ""
                then plain
                else err (
                    errorf
                      (concat (context ∷ ": WDA " ∷ code ∷ ": " ∷ e.error ∷ ": " ∷ e.message ∷ [])))
          ])

  -- a POST whose response is only checked
  unfoldable pub post_checked : String → String → Json → Call W (Unit {0})
  unfolding asking check_response
  post_checked context url body = asking context (net.post url body) (check_response context)

  unfoldable pub post_actions : String → String → Json → Call W (Unit {0})
  unfolding post_checked
  post_actions url sid actions =
      post_checked "post actions" (session_url url sid "/actions") actions

  unfoldable pub tap : String → String → ℤ → ℤ → Call W (Unit {0})
  unfolding post_actions
  tap url sid x y = post_actions url sid (
      build_pointer_actions "finger1" (
        pointer_move (pos 0) x y
        ∷ pointer_down (pos 0)
        ∷ pause (pos 100)
        ∷ pointer_up (pos 0)
        ∷ []))

  unfoldable pub swipe : String → String → ℤ → ℤ → ℤ → ℤ → Call W (Unit {0})
  unfolding post_actions
  swipe url sid x1 y1 x2 y2 = post_actions url sid (
      build_pointer_actions "finger1" (
        pointer_move (pos 0) x1 y1
        ∷ pointer_down (pos 0)
        ∷ pointer_move (pos 800) x2 y2
        ∷ pointer_up (pos 0)
        ∷ []))

  unfoldable pub input_text : String → String → String → Call W (Unit {0})
  unfolding post_checked
  input_text url sid text =
      post_checked "input text" (session_url url sid "/wda/keys")
        (obj (field "value" (arr (chars text)) end))

  unfoldable pub press_button : String → String → String → Call W (Unit {0})
  unfolding post_checked
  press_button url sid button =
      post_checked "press button" (session_url url sid "/wda/pressButton")
        (obj (field "name" (str button) end))

  unfoldable pub launch_app : String → String → String → Call W (Unit {0})
  unfolding post_checked
  launch_app url sid bundle_id =
      post_checked "launch app" (session_url url sid "/wda/apps/launch")
        (obj (field "bundleId" (str bundle_id) end))

  unfoldable pub kill_app : String → String → String → Call W (Unit {0})
  unfolding post_checked
  kill_app url sid bundle_id =
      post_checked "kill app" (session_url url sid "/wda/apps/terminate")
        (obj (field "bundleId" (str bundle_id) end))

  abbrev pub with_context : {A : Type 0} → String → Result A → Result A
  with_context context (ok a) = ok a
  with_context context (err e) = err (wrapped context e)

  unfoldable pub screenshot : String → String → Call W (List ℕ)
  unfolding asking decoded
  screenshot url sid = asking "screenshot" (net.get (concat (url ∷ "/screenshot" ∷ []))) (λ reply.
      then_result (decoded "screenshot: decode response" assign_text "" (net.json_body reply))
        (λ text. with_context "screenshot: base64 decode" (net.base64 text)))

  -- the XML in the envelope of JSON, if there is one and it is not empty
  unfoldable pub unwrap : List ℕ → List ℕ
  unfolding decoded
  unwrap body = elim (net.trim body) [
    | [] ↦ body
    | c ∷ cs ↦
        if nat_eq c b'{'
        then elim (then_result (net.json_text (c ∷ cs)) (λ j. decoded "" assign_text "" (ok j))) [
          | err _ ↦ body
          | ok xml ↦ if xml == "" then body else net.bytes xml
        ]
        else body
  ]

  unfoldable pub fetch_source : String → String → Call W (List ℕ)
  unfolding asking unwrap
  fetch_source url sid = asking "fetch source" (net.get (session_url url sid "/source")) (λ reply.
      elim reply.read_error [
        | some e ↦ err (wrapped "fetch source: read body" e)
        | none ↦ ok (unwrap reply.body)
      ])

  unfoldable pub parse_source : List ℕ → Result (List WdaElement)
  parse_source xml = elim (net.xml_text xml) [
    | err e ↦ err (wrapped "parse source" e)
    | ok root ↦ ok (collect_elements net.lower root)
  ]

  unfoldable pub get_element_tree : String → String → Call W (List WdaElement)
  unfolding fetch_source parse_source
  get_element_tree url sid w =
      let (r, w') = fetch_source url sid w in
      (then_result r (λ xml. with_context "get element tree" (parse_source xml)), w')

  unfoldable pub get_interactive_elements : String → String → List String → Call W (List WdaElement)
  unfolding get_element_tree
  get_interactive_elements url sid types w =
      let (r, w') = get_element_tree url sid w in
      (then_result r (λ els. ok (filter_interactive els types)), w')

  -- was an element found
  unfoldable pub search_element : String → String → String → String → Call W Bool
  unfolding asking decoded
  search_element url sid using value =
      asking "find element"
        (net.post (session_url url sid "/element")
          (obj (field "using" (str using) (field "value" (str value) end))))
        (λ reply. decoded "find element: decode response" assign_found false (net.json_body reply))

  -- the element that was found, by the tree of elements
  unfoldable pub labelled : String → Result (List WdaElement) → Result WdaElement
  labelled value (err e) = err (wrapped "find element: get tree" e)
  labelled value (ok els) = ok (with_label value els)

  unfoldable pub resolve : String → String → String → Result Bool → Call W WdaElement
  unfolding get_element_tree labelled
  resolve url sid value (err e) w = (err e, w)
  resolve url sid value (ok false) w = (err (errorf "find element: element not found"), w)
  resolve url sid value (ok true) w =
      let (r, w') = get_element_tree url sid w in (labelled value r, w')

  unfoldable pub find_element : String → String → String → String → Call W WdaElement
  unfolding search_element resolve
  find_element url sid using value w =
      let (r, w') = search_element url sid using value w in resolve url sid value r w'

  -- the client as the driver of WDA
  abbrev pub wda_client : WdaDriver W
  wda_client = record {
    create_session = create_session;
    status = status;
    delete_session = delete_session;
    get_element_tree = get_element_tree;
    get_interactive_elements = get_interactive_elements;
    find_element = find_element;
    tap = tap;
    swipe = swipe;
    input_text = input_text;
    press_button = press_button;
    screenshot = screenshot;
    launch_app = launch_app;
    kill_app = kill_app;
  }
