-- ===== src/Fault.antt =====
-- fault/errors.go: the sentinel errors that every package shares. Each `errors.New` call makes a
-- value of its own; the numbers stand for those identities.
use primordium.Errors.{Error, sentinel}

abbrev pub err_system_failure : Error
err_system_failure = sentinel 0

abbrev pub err_missing_requirements : Error
err_missing_requirements = sentinel 1

abbrev pub err_not_implemented : Error
err_not_implemented = sentinel 2

abbrev pub err_invalid_argument : Error
err_invalid_argument = sentinel 3

abbrev pub err_filesystem_failure : Error
err_filesystem_failure = sentinel 4

abbrev pub err_read_failure : Error
err_read_failure = sentinel 5

abbrev pub err_write_failure : Error
err_write_failure = sentinel 6

abbrev pub err_not_found : Error
err_not_found = sentinel 7

abbrev pub err_authentication_failure : Error
err_authentication_failure = sentinel 8

abbrev pub err_cancelled : Error
err_cancelled = sentinel 9

abbrev pub err_context : Error
err_context = sentinel 10

abbrev pub err_timeout : Error
err_timeout = sentinel 11

abbrev pub err_command_failure : Error
err_command_failure = sentinel 12

abbrev pub err_invalid_json : Error
err_invalid_json = sentinel 13

abbrev pub err_hash_mismatch : Error
err_hash_mismatch = sentinel 14

abbrev pub err_network_error : Error
err_network_error = sentinel 15

abbrev pub err_unacceptable_response : Error
err_unacceptable_response = sentinel 16
