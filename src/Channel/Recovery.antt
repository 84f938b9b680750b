-- ===== src/Channel/Recovery.antt =====
-- Gap recovery: `rt_recover_gap` of ably-c/src/realtime/realtime_client.c with
-- `ably_channel_deliver_history` of channel.c.
use ably_connectors.Prelude.{
  ℕ, zero, suc, ◌≡◌, refl, sym, ◌∙◌, Option, some, List, [], ◌∷◌, ◌++◌, take,
}
use mathlib.Core.Path.{subst}
use ably_connectors.Types.{Message, non_empty}
use ably_connectors.Channel.Listeners.{Listeners}
use ably_connectors.Channel.Site.{Site}
use ably_connectors.Channel.Receive.{deliver, deliver_all, recover_from, rt_recover_gap}

-- A page of the history and the cursor of the next one.
abbrev pub Page : Type 0
Page = List Message × List ℕ

unfoldable pub all_items : List Page → List Message
all_items [] = []
all_items ((items, next) ∷ pages) = items ++ all_items pages

-- From `cursor` on the pages follow each other by their cursors, the last of which is empty.
abbrev pub IsHistory : (List ℕ → List ℕ → Option Page) → List ℕ → List ℕ → List Page → Type 0
IsHistory fetch name cursor [] = cursor ≡ []
IsHistory fetch name cursor ((items, next) ∷ pages) =
    (non_empty cursor ≡ some cursor)
    × (fetch name cursor ≡ some (items, next))
    × IsHistory fetch name (take 255 next) pages

module _ {ℓ} {C : Type ℓ} (react : C → Message → Listeners C → Listeners C) where
  deliver_all-append :
      (msgs more : List Message) (s : Site C)
      → deliver_all react s (msgs ++ more) ≡ deliver_all react (deliver_all react s msgs) more
  unfolding deliver_all
  deliver_all-append [] more s = refl
  deliver_all-append (msg ∷ msgs) more s = deliver_all-append msgs more (deliver react s msg)

  deliver_all-name :
      (msgs : List Message) (s : Site C) → (deliver_all react s msgs).ch.name ≡ s.ch.name
  unfolding deliver_all deliver
  deliver_all-name [] s = refl
  deliver_all-name (msg ∷ msgs) s = deliver_all-name msgs (deliver react s msg)

  module _ (fetch : List ℕ → List ℕ → Option Page) where
    recover_from-pages :
        (n : ℕ) (cursor : List ℕ) (pages : List Page) (s : Site C)
        → IsHistory fetch s.ch.name cursor pages
        → recover_from react fetch n cursor s ≡ deliver_all react s (all_items (take n pages))
    unfolding recover_from all_items deliver_all
    recover_from-pages zero cursor pages s h = refl
    recover_from-pages (suc n) [] [] s h = refl
    recover_from-pages (suc n) (c ∷ cursor) [] s h = absurd (cc h)
    recover_from-pages (suc n) [] (page ∷ pages) s h = absurd (cc h.0)
    recover_from-pages (suc n) (c ∷ cursor) ((items, next) ∷ pages) s (_, e, rest) =
        rw (e, recover_from)
          (recover_from-pages n (take 255 next) pages (deliver_all react s items) (
              subst (λ name. IsHistory fetch name (take 255 next) pages)
                (sym (deliver_all-name items s)) rest)
            ∙ sym (deliver_all-append items (all_items (take n pages)) s))

    -- Where the REST client answers with the pages of a history, from the channel serial on and each
    -- under the cursor that the one before gives: the messages of its first 50 pages are delivered,
    -- all of them once each and in their order.
    pub rt_recover_gap-pages :
        (pages : List Page) (s : Site C)
        → IsHistory fetch s.ch.name s.ch.channel_serial pages
        → rt_recover_gap react fetch s ≡ deliver_all react s (all_items (take 50 pages))
    unfolding rt_recover_gap
    rt_recover_gap-pages pages s h = recover_from-pages 50 s.ch.channel_serial pages s h
