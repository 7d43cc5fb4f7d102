-- ===== src/Discord/Listing.antt =====
-- DiscordJsTransport.listMessagesAfter of src/discord/discord-transport.ts: the messages of a channel
-- after a cursor, page by page. The library's call that fetches a page, after a message or without a
-- cursor, is a parameter.
pub mod Paging
use herald_of_jams.Base.{
  ℕ, zero, suc, Bool, not, ◌&&◌, List, [], ◌∷◌, ◌++◌, map, Option, none, some, ltb, if◌then◌else◌,
  length, select,
}
use herald_of_jams.Game.Submissions.{InboundDiscordMessage}
use herald_of_jams.Discord.Intake.{GatewayMessage, is_eligible_player_message}

abbrev pub page_limit : ℕ
page_limit = 100

-- [...page.values()].sort by id
abbrev pub insert_message : GatewayMessage → List GatewayMessage → List GatewayMessage
insert_message m [] = m ∷ []
insert_message m (n ∷ ns) =
    if ltb n.inbound.id m.inbound.id then n ∷ insert_message m ns else m ∷ n ∷ ns

unfoldable pub order_page : List GatewayMessage → List GatewayMessage
order_page [] = []
order_page (m ∷ ms) = insert_message m (order_page ms)

-- ordered[ordered.length - 1].id
abbrev pub last_id : GatewayMessage → List GatewayMessage → ℕ
last_id m [] = m.inbound.id
last_id m (n ∷ ns) = last_id n ns

abbrev pub is_eligible : GatewayMessage → Bool
is_eligible m = is_eligible_player_message m.author_is_bot m.webhook_id

abbrev pub eligible : List GatewayMessage → List InboundDiscordMessage
eligible ms = map (λ (m : GatewayMessage). m.inbound) (select is_eligible ms)

abbrev pub list_page :
    (Option ℕ → List InboundDiscordMessage) → List GatewayMessage → List InboundDiscordMessage
list_page next [] = []
list_page next (m ∷ ms) =
    let rest = next (some (last_id m ms)) in
    eligible (m ∷ ms) ++ (if ltb (length (m ∷ ms)) page_limit then [] else rest)

-- The fuel bounds the number of pages.
unfoldable pub list_messages_after :
    (Option ℕ → List GatewayMessage) → ℕ → Option ℕ → List InboundDiscordMessage
list_messages_after fetch zero cursor = []
list_messages_after fetch (suc fuel) cursor =
    list_page (λ next. list_messages_after fetch fuel next) (order_page (fetch cursor))
