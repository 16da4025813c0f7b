-- ===== src/Web/Tunnel/Tests.antt =====
-- A name is checked and saved.
use agentunited.Prelude.{String, true, none, some, ◌≡◌, refl}
use agentunited.Web.Forms.{answered, failed}
use agentunited.Web.ChannelForm.Slug.{slugify, replaced, collapsed, without_first, without_last}
use agentunited.Web.Tunnel.{
  Tunnel, make, normalize_subdomain, start_check, end_check, start_save, end_save, end_checkout,
}

abbrev same : String → String
same s = s

abbrev named : Tunnel
named = record make { subdomain = "my box" }

checked :
    ((start_check same same named).1 ≡ some "my-box")
    × ((end_check (answered (record { available = true; reason = none })) named).is_available
        ≡ some true)
unfolding start_check end_check normalize_subdomain slugify replaced collapsed without_first
    without_last
checked = (refl, refl)

saved : (end_save "my-box" (answered tt) named).availability ≡ "Saved: my-box.tunnel.agentunited.ai"
unfolding end_save
saved = refl

unnamed : (start_save same same make).1 ≡ none
unfolding start_save normalize_subdomain slugify replaced collapsed without_first without_last
unnamed = refl

unpaid : (end_checkout (failed none) make).1 ≡ none
unfolding end_checkout
unpaid = refl
