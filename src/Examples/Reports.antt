-- ===== src/Examples/Reports.antt =====
-- How the commands name the error of a call: report of examples/client/main.go and describe of
-- docs/runbooks/cmd/send/main.go.
use service_mesh_nats_go.Prelude.{String, ◌||◌, if◌then◌else◌}
use service_mesh_nats_go.Errors.{
  Error, sentinel, wrapped, plain, handler_error, foreign, is, bad_config, kind_mismatch,
  invalid_target, no_responders, timed_out, no_stream_response, deadline_exceeded,
}

pub data Report : Type 0 where
  -- handler failed on the server
  handler_failed : String → Report
  -- no server is serving demo.echo
  no_server : Report
  request_timed_out : Report
  -- contract misuse
  misuse : Error → Report
  -- transport error
  transport : Error → Report

-- The cases after the first of report's switch.
unfoldable pub report_chain : Error → Report
unfolding is
report_chain e =
    if is e no_responders
    then no_server
    else if is e timed_out
    then request_timed_out
    else if is e kind_mismatch || is e invalid_target || is e bad_config
    then misuse e
    else transport e

-- errors.As finds a HandlerError in an error of this package only.
unfoldable pub report : Error → Report
unfolding report_chain
report (handler_error text) = handler_failed text
report (sentinel s) = report_chain (sentinel s)
report (wrapped s d) = report_chain (wrapped s d)
report (plain d) = report_chain (plain d)
report (foreign chain text) = report_chain (foreign chain text)

pub data Description : Type 0 where
  handler_error_of : String → Description
  err_timeout err_no_responders err_no_stream_response : Description
  err_bad_config : Error → Description
  err_deadline_exceeded : Description
  -- its type and its text
  other : Error → Description

unfoldable pub describe_chain : Error → Description
unfolding is
describe_chain e =
    if is e timed_out
    then err_timeout
    else if is e no_responders
    then err_no_responders
    else if is e no_stream_response
    then err_no_stream_response
    else if is e bad_config
    then err_bad_config e
    else if is e deadline_exceeded
    then err_deadline_exceeded
    else other e

unfoldable pub describe : Error → Description
unfolding describe_chain
describe (handler_error text) = handler_error_of text
describe (sentinel s) = describe_chain (sentinel s)
describe (wrapped s d) = describe_chain (wrapped s d)
describe (plain d) = describe_chain (plain d)
describe (foreign chain text) = describe_chain (foreign chain text)
