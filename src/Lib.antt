-- ===== src/Lib.antt =====
-- NetFather: management of the devices of a home network. The program keeps devices, profiles,
-- rules and events in a database (models/, core/database.py), decides from them which devices may
-- reach the network at a moment (manager/schedules.py, manager/policy_engine.py), and brings the
-- list of denied addresses to the Linux firewall (firewall/). Discovery and the desktop pages
-- feed the database and show it.
--
-- Prelude: tests, equality, lists, results, texts, integers and sorting, shared by all. A text is
-- a list of character codes.
-- Models, Database: the rows of models/*.py as records, the tables as lists, and
-- core/database.py's `session` as a state monad whose error puts the tables back.
-- Net.Addresses: what is used of Python's `ipaddress`, as a record of operations with two laws.
-- Schedules: manager/schedules.py. Window is `normalize_windows` and `windows` (the pattern is a
-- parser), Weekdays `normalize_days`, Zones `zone`, Active `active`, Change `next_change` and
-- `overlaps`. Instants are microseconds. The time-zone database is the record Zones: a wall clock
-- whose minute is below 1440 and whose weekday is below 7.
-- Policy: manager/policy_engine.py. Decision is `decision`, Engine is `PolicyEngine`,
-- and Service is manager/policy_service.py.
-- Firewall: Base is firewall/base.py; Json, Scripts and Backends are firewall/backends.py, Engine
-- is firewall/engine.py, and World is what they run in: the kernel's state, of any type, which
-- only the program `nft` sees and changes, and the database with its audit events.
-- Managers: Profiles is manager/profile_manager.py, Groups is manager/group_manager.py, both
-- over the sessions of Database. RuleFields and Rules are manager/rule_manager.py: the checks
-- before a session, the methods that change the tables, and in Rules.Queries the listings.
-- Managers.Devices is manager/device_manager.py: Find the lookups and the rows, Conflicts, Observations
-- and Names its helpers, Edit the methods on one device, Sync and Reconcile those on a scan.
-- Managers.Identities is manager/identity_manager.py. Net.Mac has the two normal forms of hardware
-- addresses of network/device.py and network/identity.py, Net.Hosts the host of network/discovery.py.
-- Examples: a small network on which the theorems are tried.
--
-- Loops over lists are recursion on them. The searches over minutes are recursion on the number
-- of minutes of eight days, 11520, which is the bound of the source; the search for a transition
-- is recursion on its 2048 rounds, likewise the bound of the source.
-- The loop that numbers a suggested device name has as many rounds as there are names in use:
-- among one candidate more than that, some is free.
--
-- Not modelled: caches, exception messages, the default of a missing `when` (the present moment
-- is an argument), SQLAlchemy, the subprocesses behind network/interface.py, the scanners, the
-- pages and the tooling. Instants have no end: OverflowError near the end of `datetime` is left
-- out. A zone is unknown or malformed (ZoneInfoNotFoundError, ValueError) or it is found: files of
-- the time-zone database that cannot be read for another reason are left out. The database can
-- refuse the events of the firewall (`writable`); its other sessions are taken to be stored. Digits,
-- letters and spaces are the ASCII ones, where Python's `\d`, `int`, `lower`, `upper` and `strip`
-- know more.
pub mod Prelude
pub mod Schedules
pub mod Models
pub mod Database
pub mod Net
pub mod Policy
pub mod Firewall
pub mod Managers
pub mod Examples
