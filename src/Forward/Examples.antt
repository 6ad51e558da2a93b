-- ===== src/Forward/Examples.antt =====
-- Runs of web/internal/corplink/proxy_http.go against small origins.
use fu_corplink.Common.{
  ℕ, ◌≡◌, refl, true, false, Option, none, some, [], ◌∷◌, arith, Text, codes, inl, inr, is_empty,
  text_eq, subst,
}
use fu_corplink.Common.Table.{lookup}
use fu_corplink.Assets.Cache.{CachedResponse, new_asset_cache, get, element_of}
use fu_corplink.Assets.Invariant.{new_asset_cache-Inv}
use fu_corplink.Tunnel.Kicks.{new_tunnel}
use fu_corplink.Forward.Wire.{Client, Response, HttpText, eof}
use fu_corplink.Forward.State.{fresh_state, Flow}
use fu_corplink.Forward.Body.{relay_forward_body, forward_buffered}
use fu_corplink.Forward.Once.{Attempt, dialed, forward_once, range_header}
use fu_corplink.Forward.Request.{Round, Request, handle_forward}
use fu_corplink.Forward.Origin.{Answers, IsFull, IsGenuine, BlockOf}
use fu_corplink.Forward.Relay.{Tracks, Delivered, relay_forward_body-Delivered}
use fu_corplink.Forward.Buffered.{Collects, Went}
use fu_corplink.Forward.Collect.{forward_buffered-Went}
use fu_corplink.Forward.Resume.{forward_once-Went}
use fu_corplink.Forward.Seamless.{Ended}
use fu_corplink.Forward.Handled.{handle_forward-Ended}

abbrev page_text : Text
page_text = codes "let x;"

abbrev origin_of : Text → Text
origin_of _ = page_text

abbrev plain_http : HttpText
plain_http = record { write_fields = λ _. []; status_text = λ _. codes "OK" }

-- a whole answer in two Reads
abbrev whole_answer : Response
whole_answer = record {
  status_code = 200;
  status = codes "200 OK";
  content_length = some 6;
  content_range = [];
  fields = [];
  body =
      record { bytes = codes "let "; err = none }
      ∷ record { bytes = codes "x;"; err = some eof }
      ∷ [];
}

whole_answer-IsFull : IsFull page_text whole_answer
whole_answer-IsFull = record {
  status = refl;
  content_length = inr refl;
  feeds =
      (refl, omega arith, (λ e. ground (arith, e)), (refl, omega arith, (λ e. omega arith), tt));
}

abbrev quiet_client : Client
quiet_client = record { written = []; faults = [] }

abbrev answered : Attempt
answered = record { dial = dialed; response = some whole_answer }

abbrev steady : ℕ → Option Text → Round
steady i range = record { attempt = answered; host_was_live = true; swaps = 0; pick = 0 }

abbrev BlocksOfAnswer : Text → Type 0
BlocksOfAnswer h = BlockOf plain_http whole_answer h

answered-Answers :
    (range : Option Text) (resp : Response)
    → some whole_answer ≡ some resp
    → Answers page_text range resp × ((h : Text) → BlockOf plain_http resp h → BlocksOfAnswer h)
answered-Answers range resp e =
    subst
      (λ r. Answers page_text range r × ((h : Text) → BlockOf plain_http r h → BlocksOfAnswer h))
      (some-inj e) (inl whole_answer-IsFull, λ h b. b)
  where
    some-inj : {a b : Response} → some a ≡ some b → a ≡ b
    some-inj q = cc

empty-IsGenuine : IsGenuine origin_of (new_asset_cache 100)
empty-IsGenuine = record { complete = tt; prefixes = tt }

abbrev script_request : Request
script_request = record {
  method = codes "GET";
  host = codes "h";
  url_host = [];
  url_path = codes "/app-Dk3f9a.js";
  upgrade = [];
  range = [];
  body = some [];
}

handle_forward-Ended_example : Ended origin_of page_text [] BlocksOfAnswer plain_http (
    handle_forward plain_http
      (λ c. c)
      steady
      script_request
      quiet_client
      (new_asset_cache 100)
      new_tunnel)
unfolding get element_of lookup is_empty text_eq
handle_forward-Ended_example =
    handle_forward-Ended origin_of page_text [] BlocksOfAnswer plain_http (λ c. c) steady
      script_request [] quiet_client (new_asset_cache 100) new_tunnel
      (λ i range resp. answered-Answers range resp) (λ r e. absurd (ground (arith, e)))
      (λ pa e. absurd (ground (arith, e))) (inr refl) refl refl refl refl refl
      (new_asset_cache-Inv 100) empty-IsGenuine

abbrev fresh_flow : Flow
fresh_flow = record {
  st = fresh_state (codes "h/app-Dk3f9a.js");
  client = quiet_client;
  assets = new_asset_cache 100;
}

fresh_flow-Collects : Collects origin_of page_text [] BlocksOfAnswer fresh_flow
fresh_flow-Collects = record {
  unsent = refl;
  nothing = refl;
  held = refl;
  within = omega arith;
  states = inl refl;
  key = inr refl;
  blank = refl;
  unbuffered = refl;
  untouched = refl;
  genuine = empty-IsGenuine;
}

forward_once-Went_example :
    Went origin_of page_text [] BlocksOfAnswer (forward_once plain_http false answered fresh_flow)
forward_once-Went_example =
    forward_once-Went origin_of page_text [] BlocksOfAnswer plain_http answered fresh_flow
      (inl fresh_flow-Collects) (λ resp. answered-Answers (range_header fresh_flow.st) resp)

-- four of six bytes are relayed when the tunnel stalls; a 206 goes on from there
abbrev stalled_flow : Flow
stalled_flow = record {
  st = record {
    header_sent = true;
    relayed = 4;
    total = some 6;
    close_after = false;
    pending = [];
    cache_key = codes "h/app-Dk3f9a.js";
    header = codes "HTTP/1.1 200 OK";
    buf = codes "let ";
  };
  client = record { written = codes "HTTP/1.1 200 OKlet "; faults = [] };
  assets = new_asset_cache 100;
}

abbrev status_line : Text
status_line = codes "HTTP/1.1 200 OK"

stalled_flow-Tracks : Tracks origin_of page_text status_line stalled_flow
stalled_flow-Tracks = record {
  sent = refl;
  within = omega arith;
  total = refl;
  captured = inr (refl, refl);
  genuine = empty-IsGenuine;
}

relay_forward_body-Delivered_example :
    Delivered origin_of page_text status_line (relay_forward_body stalled_flow 4 whole_answer.body)
relay_forward_body-Delivered_example =
    relay_forward_body-Delivered origin_of page_text status_line stalled_flow 4 0 whole_answer.body
      stalled_flow-Tracks refl (omega arith) whole_answer-IsFull.feeds

forward_buffered-Went_example :
    Went origin_of page_text [] BlocksOfAnswer
      (forward_buffered plain_http whole_answer fresh_flow 0 whole_answer.body)
forward_buffered-Went_example =
    forward_buffered-Went origin_of page_text [] BlocksOfAnswer plain_http whole_answer (λ h b. b)
      fresh_flow 0 0 whole_answer.body fresh_flow-Collects (omega arith) whole_answer-IsFull.feeds

abbrev script_page : CachedResponse
script_page = record { header = status_line; body = page_text; close = false }
