-- ===== src/Gateway/Tests.antt =====
-- A gateway that is built from the configuration in the legacy form.
use all2api.Prelude.{◌≡◌, refl, none, [], All, ok}
use all2api.Text.{text_eq}
use all2api.Config.Samples.{legacy, accepted, validate-legacy}
use all2api.Proxy.Samples.{request, world}
use all2api.Proxy.Serve.{serve}
use all2api.Gateway.{Built, Manager, build_proxy, new_manager, replace_config}
use all2api.Gateway.Route.{IsGateway, build_proxy-IsGateway}
use all2api.Gateway.Sent.{IsConfigured, serve-IsConfigured}
use all2api.Gateway.Restart.{replace_config-restart}
use all2api.Text.{Bytes}
use all2api.Config.Files.{FileWrite, load}
use all2api.Config.Plain.{plain, read_plain, write_plain}
use all2api.Gateway.Replace.{IsReplaced, replace_config-IsReplaced}

build_proxy-IsGateway_example : (b : Built) × (build_proxy accepted ≡ ok b) × IsGateway accepted b
build_proxy-IsGateway_example = build_proxy-IsGateway legacy accepted validate-legacy

abbrev running : Built
running = (build_proxy-IsGateway legacy accepted validate-legacy).0

serve-IsConfigured_example :
    All (IsConfigured accepted request) (serve running.handler world request running.store).sent
serve-IsConfigured_example =
    serve-IsConfigured legacy accepted running world request running.store validate-legacy
      (build_proxy-IsGateway legacy accepted validate-legacy).1 (λ r. refl)

abbrev manager : Manager
manager = record { cfg = accepted; built = running }

abbrev written : FileWrite
written = record { failure = none; torn = [] }

replace_config-IsReplaced_example :
    IsReplaced plain written legacy manager [] (replace_config plain written legacy manager [])
replace_config-IsReplaced_example = replace_config-IsReplaced plain written legacy manager []

abbrev replaced : Manager
replaced = (replace_config plain written legacy manager []).0

abbrev saved : Bytes
saved = (replace_config plain written legacy manager []).1

replaced_test : replace_config plain written legacy manager [] ≡ (replaced, saved, none)
unfolding replace_config text_eq read_plain write_plain
replaced_test = refl

saved_test : saved ≡ write_plain accepted
unfolding replace_config text_eq read_plain write_plain
saved_test = refl

replace_config-restart_example :
    (load plain.decode (λ name. []) (ok saved) ≡ ok replaced.cfg)
    × (new_manager plain replaced.cfg ≡ ok replaced)
replace_config-restart_example =
    replace_config-restart plain written (λ name. []) legacy manager replaced [] saved
      (λ name. refl) replaced_test
