-- ===== src/Rest/Recovery.antt =====
-- Gap recovery over the REST client: `rt_recover_gap` of ably-c/src/realtime/realtime_client.c with
-- `ably_rest_channel_history` of ably-c/src/rest/rest_client.c.
use ably_connectors.Prelude.{
  ℕ, suc, ◌<◌, ◌≡◌, refl, sym, ap, ◌∙◌, arith, Bool, true, false, Option, none, some, List, [], ◌∷◌,
  ◌++◌, map, take, take-length_le, length, ltb, if◌then◌else◌,
}
use mathlib.Core.Path.{subst}
use ably_connectors.Base64.{codes}
use ably_connectors.Types.{success, http, Message, non_empty}
use ably_connectors.Channel.Listeners.{Listeners}
use ably_connectors.Channel.Site.{Site}
use ably_connectors.Channel.Receive.{deliver_all, rt_recover_gap}
use ably_connectors.Channel.Recovery.{Page, all_items, IsHistory, rt_recover_gap-pages}
use ably_connectors.Channel.Delta.{starts_with}
use ably_connectors.Json.Tree.{Json, array, Items, to_list, as_array}
use ably_connectors.Http.Exchange.{Read, Reply, http_get}
use ably_connectors.Rest.Bodies.{history_item}
use ably_connectors.Rest.Paths.{history_path}
use ably_connectors.Rest.Cursor.{strstr, quoted_next, find_next, next_cursor}
use ably_connectors.Rest.Links.{IsHost, IsUrlPath, url, next_cursor-first}
use ably_connectors.Rest.Calls.{
  RestPage, Outcome, ok, failed, undefined_run, is_refused, checked, page_of, get_page,
  rest_history,
}

-- The items and the cursor that `rt_recover_gap` reads from the result of its call.
abbrev pub fetched : Outcome (RestPage Message) → Option Page
fetched (ok page) = some (page.items, page.next_cursor)
fetched (failed err) = none
fetched undefined_run = none

-- A Link header that names one page, the next.
abbrev pub next_link : List ℕ → List ℕ → List ℕ
next_link host path = 60 ∷ (url host path ++ (62 ∷ (codes "; " ++ quoted_next)))

-- A page of a server: its items, and where the next one is.
pub record ServedPage : Type 0 where
  pub items : Items
  pub link : List ℕ

abbrev pub messages_of : ServedPage → List Message
messages_of page = map history_item (to_list page.items)

-- A page as the recovery reads it.
abbrev pub as_page : ServedPage → Page
as_page page = (messages_of page, next_cursor page.link)

no_link : take 255 (next_cursor []) ≡ []
unfolding next_cursor find_next strstr
no_link = refl

named_next : strstr quoted_next (codes "; " ++ quoted_next) ≡ some 2
unfolding strstr starts_with
named_next = refl

next_cursor-next_link :
    (rest_host rest_path : List ℕ)
    → IsHost rest_host
    → IsUrlPath rest_path
    → length rest_path < 254
    → next_cursor (next_link rest_host rest_path) ≡ 47 ∷ rest_path
next_cursor-next_link rest_host rest_path is_host is_path short =
    let fits : ltb (suc (length rest_path)) 255 ≡ true = ground arith in
    next_cursor-first rest_host rest_path (codes "; " ++ quoted_next) 2 is_host is_path named_next
    ∙ ap (λ (b : Bool). if b then 47 ∷ rest_path else []) fits

history_path-path :
    (name rest_path : List ℕ)
    → length rest_path < 254
    → history_path name 100 (codes "forwards") (47 ∷ rest_path) ≡ some (47 ∷ rest_path)
unfolding history_path
history_path-path name rest_path short =
    ap some (take-length_le 1023 (47 ∷ rest_path) (omega arith))

module _ (number : List ℕ → ℕ) (wire : List ℕ → Option (List Read)) (host auth_header : List ℕ)
    (print : Json → Option (List ℕ)) (parse : List ℕ → Option Json) where
  -- `ably_rest_channel_history(rest, ch->name, 100, "forwards", cursor, &page)`.
  unfoldable pub fetch_history : List ℕ → List ℕ → Option Page
  fetch_history name cursor =
      fetched
        (rest_history number wire host auth_header print parse name 100 (codes "forwards") cursor
          0).0

  -- The request for the path is answered with the page.
  pub record IsAnswered (path : List ℕ) (page : ServedPage) : Type 0 where
    pub status : ℕ
    pub body : List ℕ
    pub reply :
        http_get number wire host auth_header path
        ≡ record { err = success; status = status; body = body; link = page.link }
    pub accepted : is_refused status ≡ false
    pub parsed : parse body ≡ some (array page.items)

  -- From the path on the server has the pages: each names the path of the next one in its Link header,
  -- and the last one names none.
  abbrev pub IsServed : List ℕ → ServedPage → List ServedPage → Type 0
  IsServed path page [] = IsAnswered path page × (page.link ≡ [])
  IsServed path page (later ∷ pages) =
      IsAnswered path page
      × (rest_host : List ℕ) × (rest_path : List ℕ) × (page.link ≡ next_link rest_host rest_path)
      × IsHost rest_host
      × IsUrlPath rest_path
      × (length rest_path < 254)
      × IsServed (47 ∷ rest_path) later pages

  fetch_history-answered :
      (name cursor path : List ℕ) (page : ServedPage)
      → history_path name 100 (codes "forwards") cursor ≡ some path
      → IsAnswered path page
      → fetch_history name cursor ≡ some (messages_of page, next_cursor page.link)
  unfolding fetch_history rest_history
  fetch_history-answered name cursor path page asked answered =
      let call = λ (p : Option (List ℕ)).
        fetched (get_page number wire host auth_header print parse history_item 0 p).0 in
      let read = λ (r : Reply).
        fetched (checked r (page_of history_item r (as_array (parse r.body))) r.err) in
      let reply : Reply = record {
        err = success;
        status = answered.status;
        body = answered.body;
        link = page.link;
      } in
      let items = λ (j : Option Json). page_of history_item reply (as_array j) in
      ap call asked
      ∙ ap read answered.reply
      ∙ ap (λ (b : Bool). fetched (if b then failed http else items (parse answered.body)))
          answered.accepted
      ∙ ap (λ j. fetched (items j)) answered.parsed

  served-IsHistory :
      (name cursor path : List ℕ) (page : ServedPage) (pages : List ServedPage)
      → non_empty cursor ≡ some cursor
      → history_path name 100 (codes "forwards") cursor ≡ some path
      → IsServed path page pages
      → IsHistory fetch_history name cursor (map as_page (page ∷ pages))
  served-IsHistory name cursor path page [] some_cursor asked (answered, last) = (
    some_cursor,
    fetch_history-answered name cursor path page asked answered,
    ap (λ link. take 255 (next_cursor link)) last ∙ no_link,
  )
  served-IsHistory name cursor path page (later ∷ pages) some_cursor asked
        (answered, rest_host, rest_path, link, is_host, is_path, short, served) =
      let next =
        ap next_cursor link ∙ next_cursor-next_link rest_host rest_path is_host is_path short in
      let whole = take-length_le 255 (47 ∷ rest_path) (omega arith) in
      (
        some_cursor,
        fetch_history-answered name cursor path page asked answered,
        subst (λ c. IsHistory fetch_history name c (map as_page (later ∷ pages)))
            (sym (ap (take 255) next ∙ whole))
            (served-IsHistory name (47 ∷ rest_path) (47 ∷ rest_path) later pages refl
              (history_path-path name rest_path short) served),
      )

  -- Where the server answers the request for the messages behind the channel serial, and names the
  -- path of each further page in a Link header: gap recovery requests the pages one after the other
  -- and delivers the messages of the first 50, all of them once each and in their order.
  pub rt_recover_gap-rest {ℓ} :
      {C : Type ℓ} (react : C → Message → Listeners C → Listeners C) (s : Site C) (path : List ℕ)
      (page : ServedPage) (pages : List ServedPage)
      → non_empty s.ch.channel_serial ≡ some s.ch.channel_serial
      → history_path s.ch.name 100 (codes "forwards") s.ch.channel_serial ≡ some path
      → IsServed path page pages
      → rt_recover_gap react fetch_history s
        ≡ deliver_all react s (all_items (take 50 (map as_page (page ∷ pages))))
  rt_recover_gap-rest react s path page pages some_serial asked served =
      rt_recover_gap-pages react fetch_history (map as_page (page ∷ pages)) s
        (served-IsHistory s.ch.name s.ch.channel_serial path page pages some_serial asked served)
