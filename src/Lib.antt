-- ===== src/Lib.antt =====
-- OpenDDW is a C++ layer over OpenDDS. Its class DDSManager (src/dds_manager.h, src/dds_manager.cpp,
-- src/dds_manager.hpp) keeps for each topic a TopicGroup: the topic, a publisher with a data writer,
-- a subscriber with named data readers, content filters, listeners, QoS and emitters. An emitter
-- (src/dds_callback.h) reads from a data reader, in a thread of its own or when it is asked to, and
-- gives each message to the callbacks that were added for its type. QosDictionary
-- (src/qos_dictionary.cpp) has the QoS presets that the manager applies.
--
-- Which file models what:
--   Base: shared names, texts as lists of bytes, `std::map` as a list with a lookup, the decimal
--     numbers of `std::to_string` and `std::stoi`.
--   Qos: the QoS types and QosDictionary; Qos/Topic, Qos/DataReader, Qos/DataWriter, Qos/Groups the
--     presets; Qos/Presets the choice in DDSManager::registerQos; Qos/Matching the rules by which DDS
--     matches a writer with a reader; Qos/Timestamps getTimestampPolicy and its statics.
--   Dds: the calls that the program makes of OpenDDS, and Outcome, what a function comes to: a value,
--     a call through a null pointer, an exception, or the end of the program. Dds/Status: return codes.
--   Emitter: EmitterBase and Emitter; Emitter/Listen the thread and its loop, Emitter/Routing who
--     gets a message, Emitter/Heard what the callbacks get in a run of the loop.
--   Group: DDSManager::TopicGroup and what holds of it; Group/Teardown its destructor.
--   Manager: DDSManager, its members and getters. Manager/Register has registerTopic, registerQos,
--     unregisterTopic and cleanUpTopicsForOneManager, Manager/Publish and Manager/Subscribe the making
--     of writers and readers, Manager/Settings the QoS setters, partitions and status handlers,
--     Manager/Filter replaceFilter, replaceFilterParams and setMaxDataRate, Manager/Callbacks
--     addCallback, readCallbacks and addDataListener. Manager/Steps puts the operations together as
--     steps. Manager/Valid and the files below it, Manager/Steps/Safety, Manager/Lifecycle,
--     Manager/Presets, Manager/Readers, Manager/Rates and Manager/Faults have the proofs.
--   Locks: what the functions of DDSManager do with m_topicMutex; Locks/Calls each of them,
--     Locks/Clients threads that call them, Locks/Steps their steps in any order, Locks/Count which
--     thread has the mutex, Locks/Idle and Locks/Progress that calls return, Locks/Races who uses the
--     keys of m_topics at the same time, Locks/Relocks what comes of locking twice, Locks/Simple the
--     lock mutex_shr of DDSSimpleManager.
--   Manager/Precpp11: registerTopic as it is built with OPENDDW_PRECPP11.
--   Manager/Stages: a state machine for a topic, what an abstract DDSManager may do; in the files below
--     it, by operation, that the modelled one does no more, and Manager/Stages/Runs all operations.
--   Manager/Interrupted: registerQos with another thread between its sections.
--   Manager/Footprint: what an operation on a topic leaves as it is, by operation in the files below
--     it: Topics for all operations, Refilter for replaceFilter, Handlers for the handlers of
--     listeners, Persistence for how long a reader stays.
--   Manager/Destroy the destructor, Manager/Addresses GetAddressInfo and its callers.
--   Listeners: the callbacks of src/dds_listeners.cpp; Listeners/Handlers which handler hears of what.
--   Environment: src/platformIndependent.h and the search for the configuration file in joinDomain;
--     Environment/Loop the loop of GetExecutablePath, Environment/Platforms that function on Windows
--     and macOS.
--   Simple: DDSSimpleManager (src/dds_simple.h); Simple/Waiting the loops that wait for a match,
--     Simple/Routes which topic a type is written to and read from, Simple/Safety all its operations,
--     Simple/Discovery joinDomain and the addresses, Simple/Messages what the message handler is told,
--     Simple/Arrays AddToDdsArray and RemoveFromDdsArray.
--   Types: ddsSampleEquals, ddsInit, ddsEnumToString and the topic data of registerTopic.
--   Logging: the log callback (src/dds_logging.cpp).
--   Domain: joinDomain and enableDomain; Domain/Transports the names and ports of the transports,
--     Domain/Race managers that join at the same time, Domain/Security EnableSecurity and the
--     properties of the participant.
--   Manager/Samples: takeSample, takeAllSamples, writeSample and disposeSample.
--   Monitor: ParticipantInfo and the two handlers of ParticipantMonitor (src/participant_monitor.cpp);
--     Monitor/Setup its constructor, Monitor/Identity the texts that are made of a GUID,
--     Monitor/History the samples that both handlers get, in any order, and Monitor/History/Names the
--     calls of the user's callbacks.
--   Tests: concrete managers and emitters that the theorems are applied to.
--
-- How state and code correspond: a method is a function with the name in lower case and underscores
-- (createSubscriber is create_subscriber) from a Manager to an Outcome with the result and the new
-- Manager. A DDS object is a number, a nil pointer is none. OpenDDS is the parameter Dds: what it
-- answers may be any function of the calls made so far, which the manager's `calls` lists, the latest
-- first. A shared pointer to a group is written back into the map after each change. In Manager each
-- operation runs as a whole; the threads of the clean-up come to the topics in any order. Locks has
-- the sections that a function is made of, as a program of what it does with the mutex, named after
-- the function, with every other condition left open.
--
-- Bounds and fuel: numbers are natural numbers; the nanoseconds of setMaxDataRate are reduced to 32
-- bits and the port of joinDomain to 16, as their types are; the counter of filter names is an int. There is fuel in two places: to_string
-- has one more than the number printed, which has at most that many digits, and the loop of
-- GetExecutablePath has the rounds that its theorem asks for. The loop of an emitter runs over the
-- rounds, and the loops that wait for a match over the looks, that the outside makes, and say so where
-- these end before they do. Type indices are ordered by the name of the type; the order of
-- std::type_index is not known, and no theorem depends on it.
--
-- Not modelled: the texts on the error stream, but for those of the listeners; the conversion of
-- wide characters and getenv_s on Windows; ShutdownDDS, which is a call of OpenDDS.
pub mod Base
pub mod Qos
pub mod Dds
pub mod Emitter
pub mod Group
pub mod Manager
pub mod Monitor
pub mod Domain
pub mod Simple
pub mod Listeners
pub mod Environment
pub mod Types
pub mod Logging
pub mod Locks
pub mod Tests
